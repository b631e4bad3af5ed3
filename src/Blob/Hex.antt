-- ===== src/Blob/Hex.antt =====
-- src/blob.c: `apk_blob_push_hexdump` and `apk_blob_pull_hexdump`. A read behind the end of the
-- blob, which the length check of the second does not rule out, is the result `none`.
pub mod RoundTrip
pub mod Accepts
use apk_tools.Blob.Number.{xd, dx}
use apk_tools.Prelude.{
  Bytes, ℕ, Option, some, get_or, if◌then◌else◌, [], none, ltb, ◌==◌, bit_and, length, ◌/◌, ◌*◌,
  ◌^◌, ◌++◌, ◌+◌, ◌%◌, ◌-◌, bit_or, zero,
}
use apk_tools.Blob.{
  Blob, Buffer, Bytes, ℕ, Option, ◌∷◌, room, some, [], blob, ltb, suc, length, null, overflow,
}

unfoldable pub hexdump : Bytes → Bytes
hexdump [] = []
hexdump (c ∷ binary) =
    get_or xd (bit_and (c / 2 ^ 4) 0xf) 0 ∷ get_or xd (bit_and c 0xf) 0 ∷ hexdump binary

unfoldable pub apk_blob_push_hexdump : Buffer → Bytes → Buffer
apk_blob_push_hexdump overflow binary = overflow
apk_blob_push_hexdump (room w len) binary =
    if ltb len (length binary * 2)
    then overflow
    else room (w ++ hexdump binary) (len - length binary * 2)

-- What the loop has after its rounds: the `r` of all digits, the bytes stored and the text left.
pub record HexRead : Type 0 where
  pub r : ℕ
  pub out : Bytes
  pub left : Bytes

abbrev pub store : ℕ → Option HexRead → Option HexRead
store c none = none
store c (some h) = some (record h { out = c ∷ h.out })

-- `to_len` rounds from `r`; a byte is stored in a char.
unfoldable pub pull_hex : ℕ → ℕ → Bytes → Option HexRead
pull_hex zero r s = some (record { r = r; out = []; left = s })
pull_hex (suc to_len) r (x ∷ y ∷ s) =
    store ((dx x * 2 ^ 4 + dx y) % 256) (pull_hex to_len (bit_or (bit_or r (dx x)) (dx y)) s)
pull_hex (suc to_len) r s = none

abbrev pub hex_done : Option HexRead → Option (Blob × Bytes)
hex_done none = none
hex_done (some h) = if h.r == 0xff then some (null, h.out) else some (blob h.left, h.out)

-- The blob behind the text, or NULL, and the contents of `to`, which are `to` before.
unfoldable pub apk_blob_pull_hexdump : Blob → Bytes → Option (Blob × Bytes)
apk_blob_pull_hexdump null to = some (null, to)
apk_blob_pull_hexdump (blob b) to =
    if ltb (length b * 2) (length to) then some (null, to) else hex_done (pull_hex (length to) 0 b)
