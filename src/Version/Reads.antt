-- ===== src/Version/Reads.antt =====
-- What the readers of a token's text take, exactly: a run of digits, and a suffix.
use apk_tools.Blob.Compare.{is_eq-compare}
use apk_tools.Ctype.Spans.{span_until-append}
use apk_tools.Blob.{apk_blob_compare, memcmp}
use apk_tools.Ctype.{Span, span_until}
use apk_tools.Blob.Number.Digits.{dx-digit_value}
use apk_tools.Blob.Number.RoundTrip.{NoDigit}
use apk_tools.Version.{
  token_parse_digits, suffix_value, TokenState, suffix_checked, Suffix, token_invalid,
  suffix_invalid, suffix_none, suffix_literal, Span, apk_blob_compare, suffix_guess, invalid,
}
use apk_tools.Ctype.Classes.{is_digit}
use apk_tools.Prelude.{
  ◌∷◌, [], ℕ, Bytes, All, ◌≡◌, arith, ◌≢◌, true, ◌++◌, Bool-cases, ◌*◌, ◌%◌, ◌==◌, ◌^◌, ◌+◌, inl,
  refl, inr, Bool, take, sym, length, if◌then◌else◌, not, false, ◌∙◌, ◌-◌, ap, length-append,
  take-length_append,
}
use apk_tools.Blob.Number.{pull_digits, apk_blob_pull_uint, dx}

abbrev pub Digits : Bytes → Type 0
Digits = All (λ c. is_digit c ≡ true)

-- The digits that a text begins with, and what follows them.
abbrev not_digit : ℕ → Bool
not_digit c = not (is_digit c)

abbrev digit_span : Bytes → Span
digit_span b = span_until not_digit b

pull_digits-span : (val : ℕ) (b : Bytes) → (pull_digits 10 val b).1 ≡ (digit_span b).r
unfolding pull_digits span_until
pull_digits-span val [] = refl
pull_digits-span val (c ∷ b) =
    ground (arith, dx-digit_value c, pull_digits-span ((val * 10 % 2 ^ 64 + dx c) % 2 ^ 64) b)

digit_span-NoDigit : (b : Bytes) → NoDigit 10 (digit_span b).r
unfolding span_until
digit_span-NoDigit [] = tt
digit_span-NoDigit (c ∷ b) = elim (Bool-cases (not_digit c)) [
  | inl s ↦ rw s (ground (arith, dx-digit_value c))
  | inr n ↦ rw n (digit_span-NoDigit b)
]

digit_span-Digits : (b : Bytes) → Digits (digit_span b).l
unfolding span_until
digit_span-Digits [] = tt
digit_span-Digits (c ∷ b) = elim (Bool-cases (not_digit c)) [
  | inl s ↦ rw s tt
  | inr n ↦ rw n (ground arith, digit_span-Digits b)
]

digit_span_complete :
    (n s : Bytes)
    → Digits n
    → NoDigit 10 s
    → digit_span (n ++ s) ≡ record { ret = (digit_span s).ret; l = n; r = s }
unfolding span_until
digit_span_complete [] [] h k = refl
digit_span_complete [] (c ∷ s) h k = ground (arith, dx-digit_value c)
digit_span_complete (c ∷ n) s (h, hs) k = ground (arith, digit_span_complete n s hs k)

span_length : (b : Bytes) → take (length b - length (digit_span b).r) b ≡ (digit_span b).l
span_length b =
    let l = (digit_span b).l in
    let r = (digit_span b).r in
    let whole = span_until-append not_digit b in
    let n : length b - length r ≡ length l = omega (arith, ap length whole, length-append l r) in
    rw n (ap (take (length l)) (sym whole) ∙ take-length_append l r)

-- The state after the digits of `b`, and the rest.
after_digits : TokenState → Bytes → TokenState × Bytes
after_digits t b =
    let t' = record t { number = (apk_blob_pull_uint b 10).0; value = (digit_span b).l } in
    (if length (digit_span b).l == 0 then invalid t' else t', (digit_span b).r)

token_parse_digits-span : (t : TokenState) (b : Bytes) → token_parse_digits t b ≡ after_digits t b
unfolding token_parse_digits apk_blob_pull_uint after_digits
token_parse_digits-span t b = rw (pull_digits-span 0 b, span_length b)

pub token_parse_digits_sound :
    (t : TokenState) (b : Bytes)
    → (token_parse_digits t b).0.token ≢ token_invalid
    → (n : Bytes) × (n ≢ [])
      × Digits n
      × (b ≡ n ++ (token_parse_digits t b).1)
      × ((token_parse_digits t b).0.token ≡ t.token)
token_parse_digits_sound t b = rw (token_parse_digits-span t b) (
    unfold after_digits in
    λ h. (
      (digit_span b).l,
      ground arith,
      digit_span-Digits b,
      sym (span_until-append not_digit b),
      ground arith,
    ))

pub token_parse_digits-NoDigit :
    (t : TokenState) (b : Bytes) → NoDigit 10 (token_parse_digits t b).1
token_parse_digits-NoDigit t b =
    rw (token_parse_digits-span t b) (unfold after_digits in digit_span-NoDigit b)

length-zero : (n : Bytes) → n ≢ [] → (length n == 0) ≡ false
length-zero [] h = absurd (h refl)
length-zero (c ∷ n) h = ground arith

pub token_parse_digits_complete :
    (t : TokenState) (n s : Bytes)
    → n ≢ []
    → Digits n
    → NoDigit 10 s
    → ((token_parse_digits t (n ++ s)).0.token ≡ t.token) × ((token_parse_digits t (n ++ s)).1 ≡ s)
token_parse_digits_complete t n s ne h k =
    rw (token_parse_digits-span t (n ++ s))
      (unfold after_digits in rw (digit_span_complete n s h k, length-zero n ne) (refl, refl))

suffix_checked-eq :
    (k : Suffix) (suf : Bytes)
    → suffix_checked k suf ≢ suffix_invalid
    → (suffix_checked k suf ≡ k) × (suf ≡ suffix_literal k)
unfolding suffix_checked
suffix_checked-eq suffix_invalid suf h = absurd (h refl)
suffix_checked-eq k suf h = ground (arith, is_eq-compare suf (suffix_literal k))

suffix_guess-ne_none : (len c : ℕ) → suffix_guess len c ≢ suffix_none
unfolding suffix_guess
suffix_guess-ne_none len c = ground arith

pub suffix_value_sound :
    (suf : Bytes)
    → suffix_value suf ≢ suffix_invalid
    → (suf ≡ suffix_literal (suffix_value suf)) × (suffix_value suf ≢ suffix_none)
unfolding suffix_value
suffix_value_sound [] h = absurd (h refl)
suffix_value_sound (c ∷ suf) h =
    let guess = suffix_guess (length (c ∷ suf)) c in
    let (e, l) = suffix_checked-eq guess (c ∷ suf) h in
    (l ∙ ap suffix_literal (sym e), λ n. suffix_guess-ne_none (length (c ∷ suf)) c (sym e ∙ n))

pub suffix_value-literal : (k : Suffix) → k ≢ suffix_none → suffix_value (suffix_literal k) ≡ k
unfolding suffix_value apk_blob_compare memcmp
suffix_value-literal suffix_none h = absurd (h refl)
suffix_value-literal k h = refl
