-- ===== src/Adb/Value.antt =====
-- src/adb.c, src/adb.h: the values of an ADB block, read.
use apk_tools.Prelude.{
  ℕ, Bytes, if◌then◌else◌, ◌+◌, Option, ltb, ◌==◌, length, none, take, some, drop,
}
use apk_tools.Adb.Words.{le_value, adb_val_value, adb_val_type, adb_null}

abbrev pub adb_type_int : ℕ
adb_type_int = 0x10000000

abbrev pub adb_type_int_32 : ℕ
adb_type_int_32 = 0x20000000

abbrev pub adb_type_int_64 : ℕ
adb_type_int_64 = 0x30000000

abbrev pub adb_type_blob_8 : ℕ
adb_type_blob_8 = 0x80000000

abbrev pub adb_type_blob_16 : ℕ
adb_type_blob_16 = 0x90000000

abbrev pub adb_type_blob_32 : ℕ
adb_type_blob_32 = 0xa0000000

abbrev pub adb_type_array : ℕ
adb_type_array = 0xd0000000

abbrev pub adb_type_object : ℕ
adb_type_object = 0xe0000000

-- A pointer into the block, as what is there from it on, or NULL.
unfoldable pub adb_r_deref : Bytes → ℕ → ℕ → ℕ → Option Bytes
unfolding adb_val_value
adb_r_deref adb v offs s =
    let at = offs + adb_val_value v in
    if ltb (length adb) (at + s) then none else some (drop at adb)

-- The word behind the four bytes of the versions.
unfoldable pub adb_r_root : Bytes → ℕ
unfolding le_value
adb_r_root adb = if ltb (length adb) 8 then adb_null else le_value (take 4 (drop 4 adb))

-- A number of `s` bytes that a value points to; 0 out of bounds.
unfoldable pub read_word : Bytes → ℕ → ℕ → ℕ
read_word adb v s = elim (adb_r_deref adb v 0 s) [ none ↦ 0 | some ptr ↦ le_value (take s ptr) ]

unfoldable pub adb_r_int : Bytes → ℕ → ℕ
adb_r_int adb v =
    let type = adb_val_type v in
    if type == adb_type_int
    then adb_val_value v
    else if type == adb_type_int_32
    then read_word adb v 4
    else if type == adb_type_int_64
    then read_word adb v 8
    else 0

-- A blob: `ptr` and `len`. Where the length is there and the bytes are not, the source has a NULL
-- pointer with that length.
pub data Read : Type 0 where
  read : Bytes → Read
  read_null : ℕ → Read

-- A blob whose length has `s` bytes.
unfoldable pub read_blob : Bytes → ℕ → ℕ → Read
read_blob adb v s = elim (adb_r_deref adb v 0 s) [
  | none ↦ read_null 0
  | some ptr ↦
      let len = le_value (take s ptr) in
      elim (adb_r_deref adb v s len) [ none ↦ read_null len | some at ↦ read (take len at) ]
]

unfoldable pub adb_r_blob : Bytes → ℕ → Read
adb_r_blob adb v =
    let type = adb_val_type v in
    if type == adb_type_blob_8
    then read_blob adb v 1
    else if type == adb_type_blob_16
    then read_blob adb v 2
    else if type == adb_type_blob_32
    then read_blob adb v 4
    else read_null 0
