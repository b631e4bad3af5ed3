-- ===== src/Blob/Hex/RoundTrip.antt =====
-- A hexdump is read back as the bytes that it was made of.
use apk_tools.Blob.Number.Digits.{dx-xd}
use apk_tools.Blob.{room, blob}
use apk_tools.Prelude.Table.{all_below, all_below_sound, agree_below}
use apk_tools.Prelude.{
  Bytes, ℕ, All, ◌<◌, ltb, length, ◌≡◌, bit_and, bit_or, ◌++◌, ◌*◌, true, ◌≤◌, ◌/◌, ◌%◌, some,
  arith, ◌^◌, refl, ◌+◌, ◌-◌, [], length-append,
}
use apk_tools.Blob.Hex.{
  hexdump, apk_blob_push_hexdump, apk_blob_pull_hexdump, Bytes, ℕ, pull_hex, ltb, length, bit_and,
  bit_or, ◌∷◌, some, room,
}

abbrev pub AreBytes : Bytes → Type 0
AreBytes = All (λ c. c < 256)

high_digit : (c : ℕ) → c < 256 → bit_and (c / 2 ^ 4) 0xf ≡ c / 16
unfolding all_below
high_digit = agree_below 256 (λ c. bit_and (c / 2 ^ 4) 0xf) (λ c. c / 16) refl

low_digit : (c : ℕ) → c < 256 → bit_and c 0xf ≡ c % 16
unfolding all_below
low_digit = agree_below 256 (λ c. bit_and c 0xf) (λ c. c % 16) refl

or_table : all_below 16 (λ a. all_below 16 (λ b. ltb (bit_or a b) 16)) ≡ true
unfolding all_below
or_table = refl

or_digits : (a b : ℕ) → a < 16 → b < 16 → bit_or a b < 16
or_digits a b h k =
    let row = all_below_sound 16 (λ a. all_below 16 (λ b. ltb (bit_or a b) 16)) a or_table h in
    ground (arith, all_below_sound 16 (λ b. ltb (bit_or a b) 16) b row k)

length-hexdump : (binary : Bytes) → length (hexdump binary) ≡ length binary * 2
unfolding hexdump
length-hexdump [] = refl
length-hexdump (c ∷ binary) = omega (arith, length-hexdump binary)

-- The digits are read back, and their `or` is no error.
pull_hex-hexdump :
    (binary rest : Bytes) (r : ℕ)
    → AreBytes binary
    → r < 16
    → (r' : ℕ) × (r' < 16)
      × (pull_hex (length binary) r (hexdump binary ++ rest)
          ≡ some (record { r = r'; out = binary; left = rest }))
unfolding pull_hex hexdump
pull_hex-hexdump [] rest r h k = (r, k, refl)
pull_hex-hexdump (c ∷ binary) rest r (h, hs) k =
    let hi : c / 16 < 16 = omega arith in
    let lo : c % 16 < 16 = omega arith in
    let (r', fits, e) =
      pull_hex-hexdump binary rest (bit_or (bit_or r (c / 16)) (c % 16)) hs
        (or_digits _ _ (or_digits r (c / 16) k hi) lo) in
    let whole : (c / 16 * 2 ^ 4 + c % 16) % 256 ≡ c = omega arith in
    (r', fits, rw (high_digit c h, low_digit c h, dx-xd (c / 16) hi, dx-xd (c % 16) lo, e, whole))

-- Bytes that fit the buffer are written as two digits each, and these are read back as the same
-- bytes into a target of their number, with what follows them left unread.
pub apk_blob_pull_hexdump-apk_blob_push_hexdump :
    (w : Bytes) (len : ℕ) (binary rest to : Bytes)
    → AreBytes binary
    → length binary * 2 ≤ len
    → length to ≡ length binary
    → (text : Bytes) × (apk_blob_push_hexdump (room w len) binary
        ≡ room (w ++ text) (len - length binary * 2))
      × (apk_blob_pull_hexdump (blob (text ++ rest)) to ≡ some (blob rest, binary))
unfolding apk_blob_push_hexdump apk_blob_pull_hexdump
apk_blob_pull_hexdump-apk_blob_push_hexdump w len binary rest to h fits same =
    let (r, small, e) = pull_hex-hexdump binary rest 0 h (omega arith) in
    (
      hexdump binary,
      ground arith,
      rw (same) (ground (arith, e, length-hexdump binary, length-append (hexdump binary) rest)),
    )
