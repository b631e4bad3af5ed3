-- ===== src/Blob/Number/RoundTrip.antt =====
-- Printing a number and reading it back.
use apk_tools.Prelude.{
  ℕ, zero, suc, ◌+◌, ◌*◌, ◌/◌, ◌%◌, ◌^◌, ◌≤◌, ◌<◌, [], ◌∷◌, ◌++◌, some, Bytes, false, ◌≡◌, refl,
  arith, leb, ◌==◌, get_or, Bool-cases, inl, inr, append_assoc, ◌∙◌, append-nil,
}
use apk_tools.Blob.Number.{
  dx, xd, pull_digits, put_digits, apk_blob_push_uint, apk_blob_pull_uint, Buffer,
  apk_blob_push_blob, codes,
}
use apk_tools.Blob.Number.Digits.{dx-xd, xd-ne-zero}

-- The blob is empty, or begins with no digit of the radix.
abbrev pub NoDigit : ℕ → Bytes → Type 0
NoDigit radix [] = Unit
NoDigit radix (c ∷ b) = radix ≤ dx c

pull_digits_stop :
    (radix val : ℕ) (rest : Bytes) → NoDigit radix rest → pull_digits radix val rest ≡ (val, rest)
unfolding pull_digits
pull_digits_stop radix val [] h = refl
pull_digits_stop radix val (c ∷ rest) h = ground arith

div-mod_word :
    (value radix : ℕ)
    → 2 ≤ radix
    → value < 2 ^ 64
    → (value / radix * radix % 2 ^ 64 + value % radix) % 2 ^ 64 ≡ value
div-mod_word value radix lo fits =
    let whole : value / radix * radix + value % radix ≡ value = grind arith in
    let short : value / radix * radix ≤ value = omega (arith, whole) in omega (arith, whole)

div_halves : (value radix bound : ℕ) → 2 ≤ radix → value < bound * 2 → value / radix < bound
div_halves value radix bound lo h = grind arith

-- Reading one printed digit behind the digits before it.
pub pull_digit :
    (radix value : ℕ) (b : Bytes)
    → 2 ≤ radix
    → radix ≤ 16
    → value < 2 ^ 64
    → pull_digits radix (value / radix) (get_or xd (value % radix) 0 ∷ b)
      ≡ pull_digits radix value b
unfolding pull_digits
pull_digit radix value b lo hi fits =
    let below : value % radix < radix = grind arith in
    let small : value % radix < 16 = omega arith in
    let more : leb radix (value % radix) ≡ false = ground arith in
    rw (
      xd-ne-zero (value % radix) small,
      dx-xd (value % radix) small,
      more,
      div-mod_word value radix lo fits,
    )

-- 2 ^ n, by doubling.
abbrev bound : ℕ → ℕ
bound zero = 1
bound (suc n) = bound n * 2

pub pull_digits-put_digits :
    (left radix value : ℕ) (out : Bytes)
    → 2 ≤ radix
    → radix ≤ 16
    → value < bound left
    → bound left ≤ 2 ^ 64
    → (digits : Bytes) × (put_digits left value radix out ≡ some (digits ++ out))
      × ((rest : Bytes) → pull_digits radix 0 (digits ++ rest) ≡ pull_digits radix value rest)
unfolding put_digits
pull_digits-put_digits zero radix value out lo hi fits room =
    ([], ground arith, λ rest. ground arith)
pull_digits-put_digits (suc left) radix value out lo hi fits room = elim (Bool-cases (value == 0)) [
  | inl done ↦ ([], rw done, λ rest. ground arith)
  | inr more ↦
      let d = get_or xd (value % radix) 0 in
      let narrower : value / radix < bound left = div_halves value radix (bound left) lo fits in
      let (digits, put, pull) =
        pull_digits-put_digits left radix (value / radix) (d ∷ out) lo hi narrower (omega arith) in
      (
        digits ++ d ∷ [],
        rw (more, append_assoc) put,
        λ rest. rw append_assoc (pull (d ∷ rest) ∙ pull_digit radix value rest lo hi (omega arith)),
      )
]

pub pull_zero :
    (radix : ℕ) (b : Bytes) → 2 ≤ radix → pull_digits radix 0 (b'0' ∷ b) ≡ pull_digits radix 0 b
unfolding pull_digits dx
pull_zero radix b lo = ground arith

-- The digits do not depend on what follows them.
pub printed_digits :
    (to : Buffer) (value radix : ℕ)
    → value < 2 ^ 64
    → 2 ≤ radix
    → radix ≤ 16
    → (digits : Bytes) × (apk_blob_push_uint to value radix ≡ some (apk_blob_push_blob to digits))
      × ((rest : Bytes)
          → NoDigit radix rest
          → apk_blob_pull_uint (digits ++ rest) radix ≡ (value, rest))
unfolding apk_blob_push_uint apk_blob_pull_uint
printed_digits to value radix fits lo hi = elim (Bool-cases (value == 0)) [
  | inl z ↦ (
    codes "0",
    rw z,
    λ rest stop. pull_zero radix rest lo ∙ pull_digits_stop radix 0 rest stop ∙ ground arith,
  )
  | inr nz ↦
      let (digits, put, pull) = pull_digits-put_digits 64 radix value [] lo hi fits (omega arith) in
      (
        digits,
        rw (nz, put, append-nil),
        λ rest stop. pull rest ∙ pull_digits_stop radix value rest stop,
      )
]

-- Every uint64_t is printed in at most 64 digits, so inside `buf`, and what is printed is read
-- back as that number in the same radix, from two up to sixteen, where no digit of the radix follows
-- it: what follows is left unread.
pub apk_blob_pull_uint-apk_blob_push_uint :
    (to : Buffer) (value radix : ℕ) (rest : Bytes)
    → value < 2 ^ 64
    → 2 ≤ radix
    → radix ≤ 16
    → NoDigit radix rest
    → (digits : Bytes) × (apk_blob_push_uint to value radix ≡ some (apk_blob_push_blob to digits))
      × (apk_blob_pull_uint (digits ++ rest) radix ≡ (value, rest))
apk_blob_pull_uint-apk_blob_push_uint to value radix rest fits lo hi stop =
    let (digits, put, pull) = printed_digits to value radix fits lo hi in
    (digits, put, pull rest stop)
