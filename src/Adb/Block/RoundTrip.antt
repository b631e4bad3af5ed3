-- ===== src/Adb/Block/RoundTrip.antt =====
-- A block is enumerated as it was written.
use apk_tools.Prelude.{
  length-replicate, refl, ℕ, Bytes, ◌∙◌, sym, ◌<◌, ◌≡◌, ◌^◌, ◌++◌, ◌+◌, true, ◌≤◌, arith,
  Bool-cases, length, inl, take, drop, inr, replicate, length-append, drop-length_append, ap,
  append_assoc, subst, ◌-◌, ◌%◌, take-length_append,
}
use apk_tools.Adb.Block.{
  Block, adb_block_type, header_bytes, adb_block_init, adb_block_hdrsize, block_at,
  adb_block_rawsize, adb_block_is_ext, le_value, length, adb_c_block, take, drop,
  adb_block_validate, replicate, at_block, adb_block_blob, adb_block_next, adb_block_padding,
  adb_block_size, adb_block_length, round_up8,
}
use apk_tools.Adb.Words.{le_bytes, le_value-le_bytes, le_value}
use apk_tools.Adb.Block.Bounds.{block_sizes, round_up8-bounds, adb_block_validate_accepts}

-- Two headers that the source cannot tell apart.
abbrev pub IsSame : Block → Block → Type 0
IsSame b c =
    (adb_block_type b ≡ adb_block_type c)
    × (adb_block_hdrsize b ≡ adb_block_hdrsize c)
    × (adb_block_rawsize b ≡ adb_block_rawsize c)

IsSame-header :
    (b c : Block)
    → b.type_size ≡ c.type_size
    → (adb_block_is_ext c ≡ true → b.x_size ≡ c.x_size)
    → IsSame b c
unfolding adb_block_type adb_block_hdrsize adb_block_rawsize
IsSame-header b c e f = ground arith

word_at : (v : ℕ) (tail : Bytes) → v < 2 ^ 32 → le_value (take 4 (le_bytes 4 v ++ tail)) ≡ v
unfolding le_bytes
word_at v tail h = le_value-le_bytes 4 v h

header_word :
    (blk : Block) (tail : Bytes)
    → blk.type_size < 2 ^ 32
    → (block_at (header_bytes blk ++ tail)).type_size ≡ blk.type_size
unfolding header_bytes block_at le_bytes
header_word blk tail h = elim (Bool-cases (adb_block_is_ext blk)) [
  | inl ext ↦ rw ext (word_at blk.type_size tail h)
  | inr short ↦ rw short (word_at blk.type_size tail h)
]

header_size :
    (blk : Block) (tail : Bytes)
    → blk.x_size < 2 ^ 64
    → adb_block_is_ext blk ≡ true
    → (block_at (header_bytes blk ++ tail)).x_size ≡ blk.x_size
unfolding header_bytes block_at le_bytes
header_size blk tail h ext = rw ext (le_value-le_bytes 8 blk.x_size h)

pub length-header_bytes : (blk : Block) → length (header_bytes blk) ≡ adb_block_hdrsize blk
unfolding header_bytes le_bytes
length-header_bytes blk = elim (Bool-cases (adb_block_is_ext blk)) [
  | inl ext ↦ rw ext refl
  | inr short ↦ rw short refl
]

block_at-header_bytes :
    (blk : Block) (tail : Bytes)
    → blk.type_size < 2 ^ 32
    → blk.x_size < 2 ^ 64
    → IsSame (block_at (header_bytes blk ++ tail)) blk
block_at-header_bytes blk tail h k =
    IsSame-header (block_at (header_bytes blk ++ tail)) blk (header_word blk tail h)
      (header_size blk tail k)

-- The header that is made for a payload.
pub adb_block_init_lem :
    (type len : ℕ)
    → type < 3
    → len + 23 < 2 ^ 64
    → let blk = adb_block_init type len in
      (blk.type_size < 2 ^ 32)
      × (blk.x_size < 2 ^ 64)
      × (adb_block_type blk ≡ type)
      × (4 ≤ adb_block_hdrsize blk)
      × (adb_block_rawsize blk ≡ adb_block_hdrsize blk + len)
      × (adb_block_hdrsize blk ≤ 16)
unfolding adb_block_init adb_block_type adb_block_hdrsize adb_block_rawsize
adb_block_init_lem type len h k = ground arith

length_written :
    (header val : Bytes) (padding : ℕ)
    → length (header ++ (val ++ replicate padding 0)) ≡ length header + (length val + padding)
length_written header val padding =
    rw (length-append header (val ++ replicate padding 0), length-append val (replicate padding 0))
      (omega (arith, length-replicate {A = ℕ} padding 0))

-- The written block is as long as its size.
length_block :
    (blk : Block) (val : Bytes)
    → 4 ≤ adb_block_hdrsize blk
    → adb_block_rawsize blk ≡ adb_block_hdrsize blk + length val
    → adb_block_rawsize blk + 7 < 2 ^ 64
    → length (header_bytes blk ++ (val ++ replicate (adb_block_padding blk) 0)) ≡ adb_block_size blk
unfolding adb_block_padding
length_block blk val four raw fits =
    let (header, padding, short, some_size) =
      block_sizes (adb_block_rawsize blk) (adb_block_hdrsize blk) four (omega arith) fits in
    rw length_written (rw length-header_bytes (omega arith))

payload_of :
    (b blk : Block) (header val padding rest : Bytes)
    → IsSame b blk
    → length header ≡ adb_block_hdrsize blk
    → adb_block_rawsize blk ≡ adb_block_hdrsize blk + length val
    → adb_block_rawsize blk < 2 ^ 64
    → take (adb_block_length b) (drop (adb_block_hdrsize b) ((header ++ (val ++ padding)) ++ rest))
      ≡ val
unfolding adb_block_length
payload_of b blk header val padding rest (kind, hdr, raw) e n fits =
    let len : (adb_block_rawsize b + 2 ^ 64 - adb_block_hdrsize b) % 2 ^ 64 ≡ length val =
      omega arith in
    let at : adb_block_hdrsize b ≡ length header = omega arith in
    rw
      (
        len,
        at,
        append_assoc header (val ++ padding) rest,
        drop-length_append header ((val ++ padding) ++ rest),
        append_assoc val padding rest,
      )
      (take-length_append val (padding ++ rest))

next_of :
    (b blk : Block) (written rest : Bytes)
    → IsSame b blk
    → length written ≡ adb_block_size blk
    → drop (adb_block_size b) (written ++ rest) ≡ rest
next_of b blk written rest (kind, hdr, raw) e =
    let at : adb_block_size b ≡ length written =
      unfold adb_block_size in (ap round_up8 raw ∙ sym e) in
    rw at (drop-length_append written rest)

read_back :
    (blk : Block) (val rest : Bytes)
    → blk.type_size < 2 ^ 32
    → blk.x_size < 2 ^ 64
    → 4 ≤ adb_block_hdrsize blk
    → adb_block_rawsize blk ≡ adb_block_hdrsize blk + length val
    → adb_block_rawsize blk + 7 < 2 ^ 64
    → let mem = (header_bytes blk ++ (val ++ replicate (adb_block_padding blk) 0)) ++ rest in
      (adb_block_validate mem ≡ at_block mem)
      × (adb_block_type (block_at mem) ≡ adb_block_type blk)
      × (adb_block_blob mem ≡ val)
      × (adb_block_next mem ≡ adb_block_validate rest)
unfolding adb_block_blob adb_block_next
read_back blk val rest word size four raw fits =
    let padding : Bytes = replicate (adb_block_padding blk) 0 in
    let written = header_bytes blk ++ (val ++ padding) in
    let assoc = append_assoc (header_bytes blk) (val ++ padding) rest in
    let same : IsSame (block_at (written ++ rest)) blk =
      subst (λ (m : Bytes). IsSame (block_at m) blk) (sym assoc)
        (block_at-header_bytes blk ((val ++ padding) ++ rest) word size) in
    let whole = length_block blk val four raw fits in
    let (low, high) = round_up8-bounds (adb_block_rawsize blk) fits in
    let at : adb_block_size (block_at (written ++ rest)) ≡ adb_block_size blk =
      ap round_up8 same.2 in
    (
      adb_block_validate_accepts (written ++ rest) (omega (arith, same.1))
          (omega (arith, same.1, same.2)) (omega (arith, same.2, at))
          (rw (length-append written rest) (omega (arith, at, whole))),
      same.0,
      payload_of (block_at (written ++ rest)) blk (header_bytes blk) val padding rest same
          (length-header_bytes blk) raw (omega arith),
      ap adb_block_validate (next_of (block_at (written ++ rest)) blk written rest same whole),
    )

-- What `adb_c_block` writes for a block of type 0, 1 or 2, with a payload of at most 2^64 - 24 bytes,
-- is accepted, whatever follows it: its type and its payload are read back, and the next block is
-- looked for right behind it.
pub adb_block_validate-adb_c_block :
    (type : ℕ) (val rest : Bytes)
    → type < 3
    → length val + 23 < 2 ^ 64
    → let written = adb_c_block type val ++ rest in
      (adb_block_validate written ≡ at_block written)
      × (adb_block_type (block_at written) ≡ type)
      × (adb_block_blob written ≡ val)
      × (adb_block_next written ≡ adb_block_validate rest)
unfolding adb_c_block
adb_block_validate-adb_c_block type val rest h k =
    let (word, size, kind, four, raw, sixteen) = adb_block_init_lem type (length val) h k in
    let (accepted, kind', payload, next) =
      read_back (adb_block_init type (length val)) val rest word size four raw (omega arith) in
    (accepted, kind' ∙ kind, payload, next)
