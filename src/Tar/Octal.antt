-- ===== src/Tar/Octal.antt =====
-- A number that is written to a header is read back.
use apk_tools.Errors.{Error}
use apk_tools.Prelude.{
  ℕ, zero, suc, Bytes, refl, ◌*◌, ◌<◌, ◌≡◌, ◌≤◌, Bool, ◌^◌, Option, ◌∷◌, ◌∙◌, arith, ◌+◌,
  Bool-cases, if◌then◌else◌, ◌==◌, ◌-◌, inl, [], ==_iff, true, inr, false, ◌/◌, ◌%◌, ap, sym,
}
use apk_tools.Blob.Number.{pull_digits, apk_blob_pull_uint}
use apk_tools.Blob.Number.RoundTrip.{pull_digit, pull_zero}
use apk_tools.Blob.Number.Digits.{xd_octal}
use apk_tools.Tar.{get_octal, put_octal, put_rest, put_octal_digits, skip_blank, Error}

-- 8 ^ n, by steps.
abbrev pub octal_bound : ℕ → ℕ
octal_bound zero = 1
octal_bound (suc n) = octal_bound n * 8

pull-put_rest : (left : ℕ) (out : Bytes) → pull_digits 8 0 (put_rest left out) ≡ pull_digits 8 0 out
unfolding put_rest
pull-put_rest zero out = refl
pull-put_rest (suc left) out = pull-put_rest left (b'0' ∷ out) ∙ pull_zero 8 out (omega arith)

pull-put_octal_digits :
    (left value : ℕ) (out : Bytes)
    → value < octal_bound left
    → octal_bound left ≤ 2 ^ 64
    → pull_digits 8 0 (put_octal_digits left value out) ≡ pull_digits 8 value out
unfolding put_octal_digits
pull-put_octal_digits zero value out fits room =
    let none_left : value ≡ 0 = omega arith in rw none_left refl
pull-put_octal_digits (suc left) value out fits room = elim (Bool-cases (value == 0)) [
  | inl z ↦ let e = (==_iff value 0).0 z in rw (z, e) (pull-put_rest (suc left) out)
  | inr n ↦
      let small : value / 8 < octal_bound left = grind arith in
      let digit = xd_octal (value % 8) (omega arith) in
      rw n (
        pull-put_octal_digits left (value / 8) ((b'0' + value % 8) ∷ out) small (omega arith)
        ∙ ap (λ d. pull_digits 8 (value / 8) (d ∷ out)) (sym digit)
        ∙ pull_digit 8 value out (omega arith) (omega arith) (omega arith))
]

-- A number that the field of a tar header has the digits for, of at most 64 bits, is read back from
-- what `put_octal` writes, with no error: with a 0 byte at the end, or over the whole field.
pub get_octal-put_octal :
    (l value : ℕ) (has_zero : Bool) (r : Option Error)
    → value < octal_bound (if has_zero then l - 1 else l)
    → octal_bound (if has_zero then l - 1 else l) ≤ 2 ^ 64
    → get_octal (put_octal l value has_zero) r ≡ (value, r)
unfolding get_octal put_octal apk_blob_pull_uint skip_blank
get_octal-put_octal l value true r fits room =
    rw (pull-put_octal_digits (l - 1) value (0 ∷ []) fits room) (unfold pull_digits in refl)
get_octal-put_octal l value false r fits room =
    rw (pull-put_octal_digits l value [] fits room) (unfold pull_digits in refl)
