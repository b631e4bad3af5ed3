-- ===== src/Version/Progress.antt =====
-- Each token takes at least one character, so the loops over tokens end.
use apk_tools.Prelude.{
  ℕ, zero, suc, ◌+◌, ◌-◌, ◌≤◌, ◌<◌, true, ◌≡◌, ◌≢◌, refl, arith, [], ◌∷◌, some, length, take, Bytes,
  length-append, ap, ◌*◌, not, ◌%◌, ◌^◌,
}
use apk_tools.Ctype.{
  apk_blob_spn, span_until, apk_ctype_hexdigit, apk_ctype_version_suffix, in_class,
}
use apk_tools.Ctype.Spans.{span_until-append}
use apk_tools.Blob.{apk_blob_pull_blob_match}
use apk_tools.Blob.Compare.{apk_blob_pull_blob_match_iff}
use apk_tools.Blob.Number.{apk_blob_pull_uint, pull_digits, dx}
use apk_tools.Blob.Number.Digits.{dx-digit_value}
use apk_tools.Version.{
  TokenState, token_invalid, first, token_parse_digits, token_next, next_number, next_suffix,
  next_hash, token_digit, token_first, token_initial_digit, suffix_invalid,
}
use apk_tools.Version.Cases.{
  Next, stop, letter, number, point, suffixed, hash, revision, token_next-Next,
}
use apk_tools.Version.Loop.{is_active}

pull_digits-le : (radix val : ℕ) (b : Bytes) → length (pull_digits radix val b).1 ≤ length b
unfolding pull_digits
pull_digits-le radix val [] = omega arith
pull_digits-le radix val (c ∷ b) =
    ground (arith, pull_digits-le radix ((val * radix % 2 ^ 64 + dx c) % 2 ^ 64) b)

-- Where something was read, the first character is a digit of the radix.
pull_digits-first :
    (radix val : ℕ) (c : ℕ) (b : Bytes)
    → length (pull_digits radix val (c ∷ b)).1 < length (c ∷ b)
    → dx c < radix
unfolding pull_digits
pull_digits-first radix val c b h = ground arith

take-zero : (n : ℕ) (b : Bytes) → n ≡ 0 → length (take n b) ≡ 0
take-zero zero b h = refl
take-zero (suc n) b h = absurd (omega arith)

-- The digits that `token_parse_digits` reads.
abbrev digits_rest : Bytes → Bytes
digits_rest b = (apk_blob_pull_uint b 10).1

token_parse_digits-lt :
    (t : TokenState) (b : Bytes)
    → is_active (token_parse_digits t b).0 ≡ true
    → length (token_parse_digits t b).1 < length b
unfolding token_parse_digits
token_parse_digits-lt t b h = ground (arith, take-zero (length b - length (digits_rest b)) b)

first_digit : (n : ℕ) (b : Bytes) (c : ℕ) → 0 < n → first (take n (c ∷ b)) ≡ c
first_digit zero b c h = absurd (omega arith)
first_digit (suc n) b c h = refl

digit_ge : (c : ℕ) → dx c < 10 → b'0' ≤ c
digit_ge c h = ground (arith, dx-digit_value c)

-- The text of a number, if it was read, begins with a digit.
pub token_parse_digits-first :
    (t : TokenState) (b : Bytes)
    → (token_parse_digits t b).0.token ≢ token_invalid
    → b'0' ≤ first (token_parse_digits t b).0.value
unfolding token_parse_digits apk_blob_pull_uint
token_parse_digits-first t [] h = absurd (h (unfold pull_digits in refl))
token_parse_digits-first t (c ∷ b) h =
    let r = (pull_digits 10 0 (c ∷ b)).1 in
    let n = length (c ∷ b) - length r in
    ground (arith, take-zero n (c ∷ b), first_digit n b c, digit_ge c, pull_digits-first 10 0 c b)

apk_blob_spn-le : (ctype : ℕ) (b : Bytes) → length (apk_blob_spn ctype b).r ≤ length b
unfolding apk_blob_spn
apk_blob_spn-le ctype b =
    let stop = λ (ch : ℕ). not (in_class ctype ch) in
    omega (
      arith,
      ap length (span_until-append stop b),
      length-append (span_until stop b).l (span_until stop b).r,
    )

pull_match-le :
    (b match : Bytes) (r : Bytes) → apk_blob_pull_blob_match b match ≡ some r → length r ≤ length b
pull_match-le b match r e =
    omega (arith, ap length ((apk_blob_pull_blob_match_iff b match r).0 e), length-append match r)

Next-lt :
    (t : TokenState) (c : ℕ) (b : Bytes) (res : TokenState × Bytes)
    → Next t c b res
    → is_active res.0 ≡ true
    → length res.1 < length (c ∷ b)
unfolding next_suffix next_hash next_number
Next-lt t c b _ stop h = ground arith
Next-lt t c b _ (letter l p) h = ground arith
Next-lt t c b _ (number l k e) h = omega (arith, token_parse_digits-lt _ (c ∷ b) h)
Next-lt t c b _ (point l k e p) h = omega (arith, token_parse_digits-lt _ b h)
Next-lt t c b _ (suffixed l p) h = omega (arith, apk_blob_spn-le apk_ctype_version_suffix b)
Next-lt t c b _ (hash l p) h = omega (arith, apk_blob_spn-le apk_ctype_hexdigit b)
Next-lt t c b _ (revision l p r e) h =
    omega (arith, token_parse_digits-lt _ r h, pull_match-le _ _ r e)

pub token_next-lt :
    (t : TokenState) (b : Bytes)
    → is_active (token_next t b).0 ≡ true
    → length (token_next t b).1 < length b
unfolding token_next
token_next-lt t [] h = ground arith
token_next-lt t (c ∷ b) h = Next-lt t c b _ (token_next-Next t c b) h

-- The text of a `TOKEN_DIGIT` begins with a digit.
abbrev pub LeadsWithDigit : TokenState → Type 0
LeadsWithDigit t = t.token ≡ token_digit → b'0' ≤ first t.value

token_parse_digits-LeadsWithDigit :
    (t : TokenState) (b : Bytes) → LeadsWithDigit (token_parse_digits t b).0
token_parse_digits-LeadsWithDigit t b e = token_parse_digits-first t b (λ e'. cc)

Next-LeadsWithDigit :
    (t : TokenState) (c : ℕ) (b : Bytes) (res : TokenState × Bytes)
    → Next t c b res
    → LeadsWithDigit res.0
unfolding next_suffix next_hash
Next-LeadsWithDigit t c b _ stop = λ e. cc
Next-LeadsWithDigit t c b _ (letter l p) = λ e. cc
Next-LeadsWithDigit t c b _ (number l k e) = token_parse_digits-LeadsWithDigit _ (c ∷ b)
Next-LeadsWithDigit t c b _ (point l k e p) = token_parse_digits-LeadsWithDigit _ b
Next-LeadsWithDigit t c b _ (suffixed l p) = λ e. ground arith
Next-LeadsWithDigit t c b _ (hash l p) = λ e. ground arith
Next-LeadsWithDigit t c b _ (revision l p r e) = token_parse_digits-LeadsWithDigit _ r

pub token_next-LeadsWithDigit : (t : TokenState) (b : Bytes) → LeadsWithDigit (token_next t b).0
unfolding token_next
token_next-LeadsWithDigit t [] = λ e. cc
token_next-LeadsWithDigit t (c ∷ b) = Next-LeadsWithDigit t c b _ (token_next-Next t c b)

pub token_first-LeadsWithDigit : (b : Bytes) → LeadsWithDigit (token_first b).0
unfolding token_first
token_first-LeadsWithDigit b =
    token_parse_digits-LeadsWithDigit
      (record { token = token_initial_digit; suffix = suffix_invalid; number = 0; value = [] }) b

pub token_first-le : (b : Bytes) → length (token_first b).1 ≤ length b
unfolding token_first token_parse_digits apk_blob_pull_uint
token_first-le b = pull_digits-le 10 0 b
