-- ===== src/Blob/Number/Digits.antt =====
-- The digit table as ranges of characters, and against the table that prints digits.
use apk_tools.Prelude.{
  ℕ, ◌+◌, ◌-◌, ◌≤◌, ◌<◌, ◌≡◌, refl, ◌∙◌, arith, inl, inr, ltb, leb, ◌==◌, ◌&&◌, if◌then◌else◌, Bool,
  Bool-cases, get_or, get_or-ge,
}
use apk_tools.Prelude.Table.{all_below, all_below_sound, agree_below}
use apk_tools.Ctype.Classes.{is_digit}
use apk_tools.Blob.Number.{digitdecode, dx, xd}

-- What the table says of each character; '+' is a leftover of a base64 table.
abbrev pub digit_value : ℕ → ℕ
digit_value c =
    if is_digit c
    then c - b'0'
    else if leb b'a' c && leb c b'f'
    then c - b'a' + 10
    else if leb b'A' c && leb c b'F'
    then c - b'A' + 10
    else if c == b'+'
    then 0x3e
    else 0xff

dx_beyond : (c : ℕ) → 256 ≤ c → dx c ≡ 0xff
unfolding dx digitdecode
dx_beyond c h = get_or-ge digitdecode c 0xff h

pub dx-digit_value : (c : ℕ) → dx c ≡ digit_value c
unfolding all_below dx
dx-digit_value c = elim (Bool-cases (ltb c 256)) [
  | inl lt ↦ agree_below 256 dx digit_value refl c (ground arith)
  | inr ge ↦ dx_beyond c (ground arith) ∙ ground arith
]

-- A printed digit is read back, in every radix up to sixteen, and is no NUL.
pub dx-xd : (d : ℕ) → d < 16 → dx (get_or xd d 0) ≡ d
unfolding all_below dx xd
dx-xd = agree_below 16 (λ d. dx (get_or xd d 0)) (λ d. d) refl

pub xd-ne-zero : (d : ℕ) → d < 16 → (get_or xd d 0 == 0) ≡ Bool.false
unfolding all_below xd
xd-ne-zero d h = ground (arith, all_below_sound 16 (λ d. ltb 0 (get_or xd d 0)) d refl h)

pub xd_octal : (d : ℕ) → d < 8 → get_or xd d 0 ≡ b'0' + d
unfolding all_below xd
xd_octal = agree_below 8 (λ d. get_or xd d 0) (λ d. b'0' + d) refl
