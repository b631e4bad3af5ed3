-- ===== src/Adb.antt =====
-- src/adb.c, src/adb.h: the ADB file format, its blocks, its signatures and its values. Numbers of
-- the format are little-endian.
pub mod Words
pub mod Block
pub mod Verify
pub mod Parse
pub mod Value
pub mod Write
pub mod Object
pub mod File
