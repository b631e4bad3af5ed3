-- ===== src/Version/Total.antt =====
-- The loops over tokens end within the fuel that their callers give.
use apk_tools.Blob.{blob}
use apk_tools.Prelude.{
  ℕ, zero, suc, ◌+◌, ◌≤◌, ◌<◌, Bool, true, false, ◌≡◌, refl, arith, some, length, Bytes,
  if◌then◌else◌, Option, ◌&&◌, ◌==◌,
}
use apk_tools.Version.{TokenState, token_first, token_next, token_cmp, apk_version_equal}
use apk_tools.Version.Loop.{
  is_active, validate_loop, compare_loop, same_token, apk_version_validate,
  apk_version_compare_fuzzy, compare_bytes,
}
use apk_tools.Version.Progress.{token_next-lt, token_first-le}

-- Rounds that a loop over tokens still makes.
abbrev pub rounds : TokenState → Bytes → ℕ
rounds t b = if is_active t then length b + 2 else 1

pub rounds-token_next :
    (t : TokenState) (b : Bytes)
    → is_active t ≡ true
    → rounds (token_next t b).0 (token_next t b).1 < rounds t b
rounds-token_next t b h = ground (arith, token_next-lt t b)

pub rounds-token_first : (b : Bytes) → rounds (token_first b).0 (token_first b).1 ≤ length b + 2
rounds-token_first b = ground (arith, token_first-le b)

abbrev Returns {ℓ} : {A : Type ℓ} → Option A → Type ℓ
Returns {A} o = (a : A) × (o ≡ some a)

Returns-if {ℓ} :
    {A : Type ℓ} (test : Bool) (x y : Option A)
    → (test ≡ true → Returns x)
    → (test ≡ false → Returns y)
    → Returns (if test then x else y)
Returns-if true x y f g = f refl
Returns-if false x y f g = g refl

pub validate_loop_total :
    (fuel : ℕ) (t : TokenState) (b : Bytes)
    → rounds t b ≤ fuel
    → (r : Bool) × (validate_loop fuel t b ≡ some r)
unfolding validate_loop
validate_loop_total zero t b h = absurd (ground arith)
validate_loop_total (suc fuel) t b h =
    Returns-if (is_active t) _ _
      (λ going.
        validate_loop_total fuel (token_next t b).0 (token_next t b).1
          (omega (arith, rounds-token_next t b going)))
      (λ over. (_, refl))

both_active : (same active : Bool) → (same && active) ≡ true → active ≡ true
both_active same active h = ground arith

pub compare_loop_total :
    (fuel : ℕ) (fuzzy : Bool) (ta : TokenState) (a : Bytes) (tb : TokenState) (b : Bytes)
    → rounds ta a ≤ fuel
    → (r : ℕ) × (compare_loop fuel fuzzy ta a tb b ≡ some r)
unfolding compare_loop
compare_loop_total zero fuzzy ta a tb b h = absurd (ground arith)
compare_loop_total (suc fuel) fuzzy ta a tb b h =
    Returns-if (same_token ta tb && is_active ta) _ _
      (λ going.
        Returns-if (token_cmp ta tb == apk_version_equal) _ _
          (λ _.
            compare_loop_total fuel fuzzy (token_next ta a).0 (token_next ta a).1
              (token_next tb b).0 (token_next tb b).1
              (omega (
                arith,
                rounds-token_next ta a (both_active (same_token ta tb) (is_active ta) going),
              )))
          (λ _. (_, refl)))
      (λ over. (_, refl))

-- The validation and the comparison of versions return within the fuel that they give their
-- loops, on every input: no result of theirs stands for a loop that was cut off.
pub version_loops_total :
    (a b : Bytes) (fuzzy : Bool)
    → ((r : Bool) × (validate_loop (length a + 2) (token_first a).0 (token_first a).1 ≡ some r)
        × (apk_version_validate (blob a) ≡ r))
      × ((r : ℕ) × (compare_loop
              (length a + 2)
              fuzzy
              (token_first a).0
              (token_first a).1
              (token_first b).0
              (token_first b).1
            ≡ some r)
          × (apk_version_compare_fuzzy (blob a) (blob b) fuzzy ≡ r))
unfolding apk_version_validate apk_version_compare_fuzzy compare_bytes
version_loops_total a b fuzzy =
    let (v, ve) = validate_loop_total (length a + 2) _ _ (rounds-token_first a) in
    let (c, ce) =
      compare_loop_total (length a + 2) fuzzy _ _ (token_first b).0 (token_first b).1
        (rounds-token_first a) in
    ((v, ve, rw ve), (c, ce, rw ce))
