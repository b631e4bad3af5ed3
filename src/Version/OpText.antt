-- ===== src/Version/OpText.antt =====
-- The operators as text: what `apk_version_op_string` prints, `apk_version_result_mask_blob` reads.
use apk_tools.Ctype.Classes.{is_comparer}
use apk_tools.Prelude.{
  ℕ, not, Bytes, Bool, ◌≢◌, ◌<◌, ◌==◌, ◌||◌, ◌≡◌, ◌↔◌, true, [], All, refl, arith, ==_iff, ltb, ◌⊎◌,
  ◌∷◌, bit_or, ◌&&◌, inr, ap, ◌∙◌,
}
use Prim.Native.Nat.{ℕ, bit_or}
use apk_tools.Prelude.Table.{all_below, all_below_sound}
use apk_tools.Version.Ops.{
  apk_version_op_string, apk_version_result_mask_blob, mask_from, without_conflict,
}

-- The operators that a dependency's text can have, without the bit `!`.
abbrev pub is_printed : ℕ → Bool
is_printed op =
    op == 1
    || op == 2
    || op == 3
    || op == 4
    || op == 5
    || op == 6
    || op == 9
    || op == 11
    || op == 13

op_table :
    all_below 32 (λ op.
      not (is_printed (without_conflict op))
      || (apk_version_result_mask_blob (apk_version_op_string op) == without_conflict op))
    ≡ true
unfolding all_below apk_version_op_string apk_version_result_mask_blob mask_from
op_table = refl

pub premise_holds : (p q : Bool) → p ≡ true → (not p || q) ≡ true → q ≡ true
premise_holds p q h k = ground arith

-- Every operator that is printed is read back, less the bit `!`, which a dependency's text has in
-- front of its name.
pub result_mask-op_string :
    (op : ℕ)
    → op < 32
    → is_printed (without_conflict op) ≡ true
    → apk_version_result_mask_blob (apk_version_op_string op) ≡ without_conflict op
result_mask-op_string op h p = (==_iff _ _).0 (
    premise_holds (is_printed (without_conflict op)) _ p (
      all_below_sound 32
        (λ op.
          not (is_printed (without_conflict op))
          || (apk_version_result_mask_blob (apk_version_op_string op) == without_conflict op))
        op op_table h))

abbrev in_range : ℕ → Bool
in_range n = ltb 0 n && ltb n 16

abbrev stays : ℕ → Bool
stays r =
    in_range (bit_or r 2) && in_range (bit_or r 4) && in_range (bit_or r 1) && in_range (bit_or r 9)

stays_table : all_below 16 stays ≡ true
unfolding all_below
stays_table = refl

mask_from-pos :
    (r : ℕ) (b : Bytes)
    → r < 16
    → (0 < r) ⊎ (b ≢ [])
    → All (λ c. is_comparer c ≡ true) b
    → mask_from r b ≢ 0
unfolding mask_from
mask_from-pos r [] h k a e = ground arith
mask_from-pos r (c ∷ b) h k (a, rest) e = ground (
  arith,
  all_below_sound 16 stays r stays_table h,
  mask_from-pos (bit_or r 2) b,
  mask_from-pos (bit_or r 4) b,
  mask_from-pos (bit_or r 1) b,
  mask_from-pos (bit_or r 9) b,
)

mask_from-All : (r : ℕ) (b : Bytes) → mask_from r b ≢ 0 → All (λ c. is_comparer c ≡ true) b
unfolding mask_from
mask_from-All r [] h = tt
mask_from-All r (c ∷ b) h = (
  ground arith,
  ground (
    arith,
    mask_from-All (bit_or r 2) b,
    mask_from-All (bit_or r 4) b,
    mask_from-All (bit_or r 1) b,
    mask_from-All (bit_or r 9) b,
  ),
)

mask_from-nil : mask_from 0 [] ≡ 0
unfolding mask_from
mask_from-nil = refl

-- A nonempty text of comparison characters has a mask that is not 0, and no other text has.
pub apk_version_result_mask_blob_iff :
    (b : Bytes)
    → (apk_version_result_mask_blob b ≢ 0) ↔ ((b ≢ []) × All (λ c. is_comparer c ≡ true) b)
unfolding apk_version_result_mask_blob
apk_version_result_mask_blob_iff b = (
  λ h. (λ e. h (ap (mask_from 0) e ∙ mask_from-nil), mask_from-All 0 b h),
  λ k. mask_from-pos 0 b (omega arith) (inr k.0) k.1,
)
