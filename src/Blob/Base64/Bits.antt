-- ===== src/Blob/Base64/Bits.antt =====
-- The bit operations of the base64 coder as arithmetic, each by a table of its arguments.
use apk_tools.Blob.Base64.{dec, enc, bit_and, bit_or, byte0, byte1, byte2}
use apk_tools.Prelude.{ℕ, ◌<◌, ◌≡◌, bit_and, bit_or, refl, ◌%◌, ◌/◌, ◌*◌, ◌^◌, ◌+◌}
use apk_tools.Prelude.Table.{agree_below, agree_below2, all_below}

pub low2 : (s : ℕ) → s < 256 → bit_and s 0x03 ≡ s % 4
unfolding all_below
low2 = agree_below 256 (λ s. bit_and s 0x03) (λ s. s % 4) refl

pub high4 : (s : ℕ) → s < 256 → bit_and s 0xf0 / 2 ^ 4 ≡ s / 16
unfolding all_below
high4 = agree_below 256 (λ s. bit_and s 0xf0 / 2 ^ 4) (λ s. s / 16) refl

pub low4 : (s : ℕ) → s < 256 → bit_and s 0x0f ≡ s % 16
unfolding all_below
low4 = agree_below 256 (λ s. bit_and s 0x0f) (λ s. s % 16) refl

pub high2 : (s : ℕ) → s < 256 → bit_and s 0xc0 / 2 ^ 6 ≡ s / 64
unfolding all_below
high2 = agree_below 256 (λ s. bit_and s 0xc0 / 2 ^ 6) (λ s. s / 64) refl

pub low6 : (s : ℕ) → s < 256 → bit_and s 0x3f ≡ s % 64
unfolding all_below
low6 = agree_below 256 (λ s. bit_and s 0x3f) (λ s. s % 64) refl

pub or_2_4 : (x y : ℕ) → x < 4 → y < 16 → bit_or (x * 2 ^ 4) y ≡ x * 16 + y
unfolding all_below
or_2_4 = agree_below2 4 16 (λ x y. bit_or (x * 2 ^ 4) y) (λ x y. x * 16 + y) refl

pub or_4_2 : (x y : ℕ) → x < 16 → y < 4 → bit_or (x * 2 ^ 2) y ≡ x * 4 + y
unfolding all_below
or_4_2 = agree_below2 16 4 (λ x y. bit_or (x * 2 ^ 2) y) (λ x y. x * 4 + y) refl

pub byte0_lem : (x y : ℕ) → x < 64 → y < 64 → byte0 x y ≡ x * 4 + y / 16
unfolding all_below
byte0_lem = agree_below2 64 64 byte0 (λ x y. x * 4 + y / 16) refl

pub byte1_lem : (x y : ℕ) → x < 64 → y < 64 → byte1 x y ≡ x % 16 * 16 + y / 4
unfolding all_below
byte1_lem = agree_below2 64 64 byte1 (λ x y. x % 16 * 16 + y / 4) refl

pub byte2_lem : (x y : ℕ) → x < 64 → y < 64 → byte2 x y ≡ x % 4 * 64 + y
unfolding all_below
byte2_lem = agree_below2 64 64 byte2 (λ x y. x % 4 * 64 + y) refl

pub dec-enc : (i : ℕ) → i < 64 → dec (enc i) ≡ i
unfolding all_below dec enc
dec-enc = agree_below 64 (λ i. dec (enc i)) (λ i. i) refl

pub dec_padding : dec b'=' ≡ 0
unfolding dec
dec_padding = refl
