-- ===== src/Adb/Parse/Allowed.antt =====
-- The types that `allowed` lets through.
use apk_tools.Prelude.{refl, ℕ, ◌≡◌, ◌⊎◌, true, inl, arith, inr, zero, subst}
use apk_tools.Adb.Parse.{is_allowed, true, suc}

pub first_type : (type : ℕ) → is_allowed type 1 ≡ true → type ≡ 0
first_type zero e = refl
first_type (suc zero) e = absurd (ground (arith, e))
first_type (suc (suc zero)) e = absurd (ground (arith, e))
first_type (suc (suc (suc zero))) e = absurd (ground (arith, e))
first_type (suc (suc (suc (suc type)))) e = absurd (ground (arith, e))

pub later_type :
    (type allowed : ℕ)
    → (allowed ≡ 6) ⊎ (allowed ≡ 4)
    → is_allowed type allowed ≡ true
    → (type ≡ 1) ⊎ (type ≡ 2)
later_type type allowed (inl six) e = six_type type (subst (λ a. is_allowed type a ≡ true) six e)
  where
    six_type : (type : ℕ) → is_allowed type 6 ≡ true → (type ≡ 1) ⊎ (type ≡ 2)
    six_type zero e = absurd (ground (arith, e))
    six_type (suc zero) e = inl refl
    six_type (suc (suc zero)) e = inr refl
    six_type (suc (suc (suc zero))) e = absurd (ground (arith, e))
    six_type (suc (suc (suc (suc type)))) e = absurd (ground (arith, e))
later_type type allowed (inr four) e = four_type type (subst (λ a. is_allowed type a ≡ true) four e)
  where
    four_type : (type : ℕ) → is_allowed type 4 ≡ true → (type ≡ 1) ⊎ (type ≡ 2)
    four_type zero e = absurd (ground (arith, e))
    four_type (suc zero) e = absurd (ground (arith, e))
    four_type (suc (suc zero)) e = inr refl
    four_type (suc (suc (suc zero))) e = absurd (ground (arith, e))
    four_type (suc (suc (suc (suc type)))) e = absurd (ground (arith, e))
