-- ===== src/Version/Compare.antt =====
-- `apk_version_compare` as an order on versions.
use apk_tools.Version.Progress.{token_first-LeadsWithDigit}
use apk_tools.Version.Order.Laws.{
  flip_result, sign, compare_loop_flip, compare_loop-Trans, compare_loop_self,
}
use apk_tools.Version.{apk_version_less, apk_version_equal, token_first}
use apk_tools.Prelude.Order.{Trans}
use apk_tools.Version.Total.{version_loops_total}
use apk_tools.Prelude.{Bytes, ℕ, ◌≡◌, length, false, ◌⊎◌, ◌+◌, ◌∙◌, arith, some, refl}
use apk_tools.Blob.{Blob, blob, null}
use Prim.Native.Nat.{ℕ}
use apk_tools.Version.Loop.{apk_version_compare, compare_loop, apk_version_compare_fuzzy}

-- A version is at most another: the comparison returns less or equal.
abbrev pub AtMost : Blob → Blob → Type 0
AtMost a b =
    (apk_version_compare a b ≡ apk_version_less) ⊎ (apk_version_compare a b ≡ apk_version_equal)

abbrev Looped : Bytes → Bytes → Type 0
Looped a b =
    (r : ℕ) × (compare_loop (length a + 2) false (token_first a).0 (token_first a).1
        (token_first b).0 (token_first b).1
      ≡ some r)
    × (apk_version_compare (blob a) (blob b) ≡ r)

looped : (a b : Bytes) → Looped a b
unfolding apk_version_compare
looped a b = (version_loops_total a b false).1

-- Comparing in the other order gives the opposite result: less for greater, and the results
-- equal and unordered (NULL against a version) stay. This is so for all texts, valid or not.
pub apk_version_compare_flip :
    (a b : Blob) → apk_version_compare b a ≡ flip_result (apk_version_compare a b)
apk_version_compare_flip (blob a) (blob b) =
    let (r, e, er) = looped a b in
    let (s, f, fs) = looped b a in
    rw (er, fs)
      (compare_loop_flip (length a + 2) (length b + 2) (token_first a).0 (token_first a).1
        (token_first b).0 (token_first b).1 r s e f)
apk_version_compare_flip null null = unfold apk_version_compare apk_version_compare_fuzzy in refl
apk_version_compare_flip null (blob b) =
    unfold apk_version_compare apk_version_compare_fuzzy in refl
apk_version_compare_flip (blob a) null =
    unfold apk_version_compare apk_version_compare_fuzzy in refl

-- Every text is equal to itself as a version, also one that is no valid version.
pub apk_version_compare_self : (a : Blob) → apk_version_compare a a ≡ apk_version_equal
apk_version_compare_self (blob a) =
    let (r, e, er) = looped a a in
    er ∙ compare_loop_self (length a + 2) (token_first a).0 (token_first a).1 r e
apk_version_compare_self null = unfold apk_version_compare apk_version_compare_fuzzy in refl

compare_Trans_bytes :
    (a b c : Bytes)
    → Trans
        (sign (apk_version_compare (blob a) (blob b)))
        (sign (apk_version_compare (blob b) (blob c)))
        (sign (apk_version_compare (blob a) (blob c)))
compare_Trans_bytes a b c =
    let (r, e, er) = looped a b in
    let (s, f, fs) = looped b c in
    let (u, g, gu) = looped a c in
    rw (er, fs, gu)
      (compare_loop-Trans (length a + 2) (length b + 2) (length a + 2) _ _ _ _ _ _ r s u
        (token_first-LeadsWithDigit a) (token_first-LeadsWithDigit b) (token_first-LeadsWithDigit c)
        e f g)

results-Trans :
    (r s u : ℕ)
    → Trans (sign r) (sign s) (sign u)
    → (r ≡ apk_version_less) ⊎ (r ≡ apk_version_equal)
    → (s ≡ apk_version_less) ⊎ (s ≡ apk_version_equal)
    → ((u ≡ apk_version_less) ⊎ (u ≡ apk_version_equal))
      × ((r ≡ apk_version_less) ⊎ (s ≡ apk_version_less) → u ≡ apk_version_less)
results-Trans r s u t h k = ground arith

-- The order is transitive, on all texts: a version at most a second that is at most a third is at
-- most the third, and less than it if one of the two steps is strict.
pub apk_version_compare_trans :
    (a b c : Blob)
    → AtMost a b
    → AtMost b c
    → AtMost a c
      × ((apk_version_compare a b ≡ apk_version_less) ⊎ (apk_version_compare b c ≡ apk_version_less)
          → apk_version_compare a c ≡ apk_version_less)
unfolding apk_version_compare apk_version_compare_fuzzy
apk_version_compare_trans (blob a) (blob b) (blob c) h k =
    results-Trans _ _ _ (compare_Trans_bytes a b c) h k
apk_version_compare_trans _ _ _ h k = ground arith
