-- ===== src/Adb/Block/Bounds.antt =====
-- What the checks of a block's header are worth: its bounds, and the step to the next block.
use apk_tools.Prelude.{
  refl, ℕ, Bytes, ◌<◌, ◌+◌, ◌≡◌, ◌^◌, ◌≤◌, arith, length, drop, length-take, ◌-◌, length-drop, ◌%◌,
}
use apk_tools.Adb.Block.{
  adb_block_rawsize, round_up8, adb_block_validate, adb_block_size, block_at, adb_block_hdrsize,
  adb_block_length, adb_block_padding, at_block, adb_block_blob, length, drop,
}

-- A size that ROUND_UP does not wrap.
abbrev pub Fits : Bytes → Type 0
Fits mem = adb_block_rawsize (block_at mem) + 7 < 2 ^ 64

pub round_up8-bounds : (x : ℕ) → x + 7 < 2 ^ 64 → (x ≤ round_up8 x) × (round_up8 x < x + 8)
unfolding round_up8
round_up8-bounds x h = (omega arith, omega arith)

pub round_up8-wraps : (x : ℕ) → x < 2 ^ 64 → 2 ^ 64 ≤ x + 7 → round_up8 x ≡ 0
unfolding round_up8
round_up8-wraps x h k = omega arith

-- The tests that an accepted block passed.
pub adb_block_validate-at_block :
    (mem b : Bytes)
    → adb_block_validate mem ≡ at_block b
    → (b ≡ mem)
      × (4 ≤ adb_block_hdrsize (block_at mem))
      × (adb_block_hdrsize (block_at mem) ≤ adb_block_rawsize (block_at mem))
      × (adb_block_size (block_at mem) ≤ length mem)
unfolding adb_block_validate adb_block_hdrsize
adb_block_validate-at_block mem b e = ground arith

pub block_sizes :
    (raw hdr : ℕ)
    → 4 ≤ hdr
    → hdr ≤ raw
    → raw + 7 < 2 ^ 64
    → (hdr + (raw + 2 ^ 64 - hdr) % 2 ^ 64 ≡ raw)
      × (raw + (round_up8 raw + 2 ^ 64 - raw) % 2 ^ 32 ≡ round_up8 raw)
      × ((round_up8 raw + 2 ^ 64 - raw) % 2 ^ 32 < 8)
      × (0 < round_up8 raw)
block_sizes raw hdr h k fits =
    let (low, high) = round_up8-bounds raw fits in
    (omega arith, omega arith, omega arith, omega arith)

-- An accepted block whose size does not wrap: header and payload are its raw size, which with its
-- padding of less than 8 bytes lies in the data, the payload is read whole, and the data left for
-- the next block is less.
pub adb_block_validate-inside :
    (mem b : Bytes)
    → adb_block_validate mem ≡ at_block b
    → Fits mem
    → let blk = block_at b in
      (b ≡ mem)
      × (adb_block_hdrsize blk + adb_block_length blk ≡ adb_block_rawsize blk)
      × (adb_block_rawsize blk + adb_block_padding blk ≡ adb_block_size blk)
      × (adb_block_padding blk < 8)
      × (adb_block_size blk ≤ length b)
      × (length (adb_block_blob b) ≡ adb_block_length blk)
      × (length (drop (adb_block_size blk) b) < length b)
unfolding adb_block_size adb_block_length adb_block_padding adb_block_blob
adb_block_validate-inside mem b e fits =
    let (same, four, raw, inside) = adb_block_validate-at_block mem b e in
    let blk = block_at mem in
    let (header, padding, short, some_size) =
      block_sizes (adb_block_rawsize blk) (adb_block_hdrsize blk) four raw fits in
    let low = (round_up8-bounds (adb_block_rawsize blk) fits).0 in
    rw same (
      refl,
      header,
      padding,
      short,
      inside,
      length-take (adb_block_length blk) (drop (adb_block_hdrsize blk) mem)
          (rw (length-drop (adb_block_hdrsize blk) mem) (omega arith)),
      rw (length-drop (adb_block_size blk) mem) (omega arith),
    )

pub adb_block_validate_accepts :
    (mem : Bytes)
    → 4 ≤ adb_block_hdrsize (block_at mem)
    → adb_block_hdrsize (block_at mem) ≤ adb_block_rawsize (block_at mem)
    → adb_block_rawsize (block_at mem) ≤ adb_block_size (block_at mem)
    → adb_block_size (block_at mem) ≤ length mem
    → adb_block_validate mem ≡ at_block mem
unfolding adb_block_validate
adb_block_validate_accepts mem four header raw inside = ground arith
