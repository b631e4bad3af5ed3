-- ===== src/Database.antt =====
-- src/database.c, src/apk_database.h: the database. Names and blobs are interned, so that they are
-- modelled by their texts.
pub mod Tags
pub mod Acl
