-- ===== src/Blob/Number.antt =====
-- src/blob.c: the digit tables, `apk_blob_pull_uint` and `apk_blob_push_uint`.
pub mod Digits
pub mod RoundTrip
use apk_tools.Prelude.{
  ℕ, zero, suc, ◌+◌, ◌*◌, ◌/◌, ◌%◌, ◌^◌, [], ◌∷◌, ◌++◌, Option, none, some, Bytes, codes, ltb, leb,
  ◌==◌, if◌then◌else◌, get_or, replicate,
}
use apk_tools.Blob.{Buffer, overflow, apk_blob_push_blob}

-- The 256 entries of the table, its runs of 0xff as one `replicate` each.
digitdecode : Bytes
digitdecode =
    replicate 43 0xff
    ++ (0x3e ∷ [])
    ++ replicate 4 0xff
    ++ (0 ∷ 1 ∷ 2 ∷ 3 ∷ 4 ∷ 5 ∷ 6 ∷ 7 ∷ 8 ∷ 9 ∷ [])
    ++ replicate 7 0xff
    ++ (0xa ∷ 0xb ∷ 0xc ∷ 0xd ∷ 0xe ∷ 0xf ∷ [])
    ++ replicate 26 0xff
    ++ (0xa ∷ 0xb ∷ 0xc ∷ 0xd ∷ 0xe ∷ 0xf ∷ [])
    ++ replicate 153 0xff

-- The index is an unsigned char, so the table's end is never passed.
unfoldable pub dx : ℕ → ℕ
unfolding digitdecode
dx c = get_or digitdecode c 0xff

pub xd : Bytes
xd = codes "0123456789abcdefghijklmnopqrstuvwxyz"

-- The loop of `apk_blob_pull_uint` from the value `val`, in uint64_t.
unfoldable pub pull_digits : ℕ → ℕ → Bytes → ℕ × Bytes
pull_digits radix val [] = (val, [])
pull_digits radix val (c ∷ b) =
    let ch = dx c in
    let rest = pull_digits radix ((val * radix % 2 ^ 64 + ch) % 2 ^ 64) b in
    if c == 0 then (val, c ∷ b) else if leb radix ch then (val, c ∷ b) else rest

-- The value, and the blob behind its digits.
unfoldable pub apk_blob_pull_uint : Bytes → ℕ → ℕ × Bytes
apk_blob_pull_uint b radix = pull_digits radix 0 b

-- The loop of `apk_blob_push_uint`: `left` of the 64 bytes of `buf` are free, and `out` are those
-- behind `ptr`. `none` is a write in front of `buf`.
unfoldable pub put_digits : ℕ → ℕ → ℕ → Bytes → Option Bytes
put_digits zero value radix out = if value == 0 then some out else none
put_digits (suc left) value radix out =
    let rest = put_digits left (value / radix) radix (get_or xd (value % radix) 0 ∷ out) in
    if value == 0 then some out else rest

abbrev push_digits : Buffer → Option Bytes → Option Buffer
push_digits to none = none
push_digits to (some digits) = some (apk_blob_push_blob to digits)

-- `none` is a write outside `buf`, which no value below 2^64 causes.
unfoldable pub apk_blob_push_uint : Buffer → ℕ → ℕ → Option Buffer
apk_blob_push_uint to value radix =
    if value == 0
    then some (apk_blob_push_blob to (codes "0"))
    else push_digits to (put_digits 64 value radix [])
