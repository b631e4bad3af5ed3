-- ===== src/Adb/Block.antt =====
-- src/adb.h, src/adb.c: the blocks of a file, their headers and their enumeration. A pointer to a
-- block is the data from there on.
pub mod Bounds
pub mod RoundTrip
use apk_tools.Prelude.{
  ℕ, Bytes, if◌then◌else◌, Bool, ◌+◌, take, length, drop, leb, ◌/◌, ◌%◌, ◌^◌, ◌==◌, ◌++◌, ◌-◌, ◌*◌,
  ltb, replicate,
}
use apk_tools.Errors.{apke_adb_block, Error}
use apk_tools.Adb.Words.{le_value, le_bytes}

abbrev pub adb_block_adb : ℕ
adb_block_adb = 0

abbrev pub adb_block_sig : ℕ
adb_block_sig = 1

abbrev pub adb_block_data : ℕ
adb_block_data = 2

abbrev pub adb_block_ext : ℕ
adb_block_ext = 3

abbrev pub adb_block_max : ℕ
adb_block_max = 4

-- `struct adb_block`: two words of 32 bits, `reserved` among them, and one of 64.
pub record Block : Type 0 where
  pub type_size : ℕ
  pub x_size : ℕ

-- The sizes are uint32_t and uint64_t; `type` is below 4.
unfoldable pub adb_block_init : ℕ → ℕ → Block
adb_block_init type length =
    if leb length (0x3fffffff - 4)
    then record { type_size = (type * 2 ^ 30 + 4 + length) % 2 ^ 32; x_size = 0 }
    else record {
      type_size = (adb_block_ext * 2 ^ 30 + type) % 2 ^ 32;
      x_size = (16 + length) % 2 ^ 64;
    }

unfoldable pub adb_block_is_ext : Block → Bool
adb_block_is_ext b = b.type_size / 2 ^ 30 == adb_block_ext

unfoldable pub adb_block_type : Block → ℕ
unfolding adb_block_is_ext
adb_block_type b = if adb_block_is_ext b then b.type_size % 2 ^ 30 else b.type_size / 2 ^ 30

unfoldable pub adb_block_rawsize : Block → ℕ
unfolding adb_block_is_ext
adb_block_rawsize b = if adb_block_is_ext b then b.x_size else b.type_size % 2 ^ 30

unfoldable pub adb_block_hdrsize : Block → ℕ
unfolding adb_block_is_ext
adb_block_hdrsize b = if adb_block_is_ext b then 16 else 4

-- `ROUND_UP(x, ADB_BLOCK_ALIGNMENT)` in uint64_t.
unfoldable pub round_up8 : ℕ → ℕ
round_up8 x = (x + 7) % 2 ^ 64 / 8 * 8

unfoldable pub adb_block_size : Block → ℕ
unfolding round_up8 adb_block_rawsize
adb_block_size b = round_up8 (adb_block_rawsize b)

unfoldable pub adb_block_length : Block → ℕ
unfolding adb_block_rawsize adb_block_hdrsize
adb_block_length b = (adb_block_rawsize b + 2 ^ 64 - adb_block_hdrsize b) % 2 ^ 64

unfoldable pub adb_block_padding : Block → ℕ
unfolding adb_block_size adb_block_rawsize
adb_block_padding b = (adb_block_size b + 2 ^ 64 - adb_block_rawsize b) % 2 ^ 32

-- The header that a pointer is cast to. `x_size` is read in extended blocks alone.
unfoldable pub block_at : Bytes → Block
block_at mem = record { type_size = le_value (take 4 mem); x_size = le_value (take 8 (drop 8 mem)) }

-- `adb_block_blob`: the payload, as much of it as there is.
unfoldable pub adb_block_blob : Bytes → Bytes
unfolding block_at adb_block_hdrsize adb_block_length
adb_block_blob mem =
    take (adb_block_length (block_at mem)) (drop (adb_block_hdrsize (block_at mem)) mem)

-- What the enumeration returns: NULL behind the last block, an error, or a block.
pub data Cursor : Type 0 where
  at_end : Cursor
  at_error : Error → Cursor
  at_block : Bytes → Cursor

unfoldable pub adb_block_validate : Bytes → Cursor
unfolding block_at adb_block_hdrsize adb_block_rawsize adb_block_size
adb_block_validate mem =
    let len = length mem in
    let blk = block_at mem in
    if len == 0
    then at_end
    else if ltb len 4
    then at_error apke_adb_block
    else if ltb len (adb_block_hdrsize blk)
    then at_error apke_adb_block
    else if ltb (adb_block_rawsize blk) (adb_block_hdrsize blk)
    then at_error apke_adb_block
    else if ltb len (adb_block_size blk)
    then at_error apke_adb_block
    else at_block mem

unfoldable pub adb_block_first : Bytes → Cursor
unfolding adb_block_validate
adb_block_first b = adb_block_validate b

unfoldable pub adb_block_next : Bytes → Cursor
unfolding adb_block_validate adb_block_size block_at
adb_block_next cur = adb_block_validate (drop (adb_block_size (block_at cur)) cur)

-- The bytes of a header, as long as `adb_block_hdrsize`.
unfoldable pub header_bytes : Block → Bytes
unfolding adb_block_hdrsize
header_bytes blk =
    take (adb_block_hdrsize blk)
      (le_bytes 4 blk.type_size ++ (le_bytes 4 0 ++ le_bytes 8 blk.x_size))

-- What `adb_c_block` writes to a stream without errors.
unfoldable pub adb_c_block : ℕ → Bytes → Bytes
unfolding adb_block_init header_bytes adb_block_padding
adb_c_block type val =
    let blk = adb_block_init type (length val) in
    header_bytes blk ++ (val ++ replicate (adb_block_padding blk) 0)
