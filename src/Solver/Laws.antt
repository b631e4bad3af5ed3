-- ===== src/Solver/Laws.antt =====
-- The preference between two providers does not depend on their order.
use apk_tools.Package.Array.Laws.{same_name_swap}
use apk_tools.Version.Compare.{apk_version_compare_flip}
use apk_tools.Version.Loop.{apk_version_compare}
use apk_tools.Prelude.Order.{flip, compare-flip, int_sign, int_sign-compare}
use apk_tools.Blob.{Blob}
use apk_tools.Prelude.{none, some, Ordering, Bool, ℕ, ◌<◌, ◌^◌, ◌≡◌, arith, Option, ◌||◌, refl}
use apk_tools.Solver.{
  compare_pkgs, compare_candidates, latest_first, usual_first, usual_rest, then_latest,
  compare_providers, or_flags, Blob, Flags, by_result, Candidate, Offer, apk_version_compare, ffs,
}

-- The two orderings are those of one comparison and of its reverse.
abbrev Flips : Ordering → Ordering → Type 0
Flips o p = o ≡ flip p

Flips-version :
    (a b : Blob) → Flips (by_result (apk_version_compare b a)) (by_result (apk_version_compare a b))
Flips-version a b = rw (apk_version_compare_flip a b) (ground arith)

-- The package has less than 2^31 conflicts, or there is none.
abbrev pub FewConflicts : Option Candidate → Type 0
FewConflicts none = Unit
FewConflicts (some c) = c.conflicts < 2 ^ 31

int_sign-flip : (a b : ℕ) → a < 2 ^ 31 → b < 2 ^ 31 → int_sign a b ≡ flip (int_sign b a)
int_sign-flip a b h k = rw (int_sign-compare a b h k, int_sign-compare b a k h) (compare-flip b a)

module _ (flags : Flags) (a b : Candidate) where
  latest_first_flip : Flips (latest_first flags b a) (latest_first flags a b)
  unfolding latest_first
  latest_first_flip = ground arith

  usual_rest_flip :
      (self_upgrade : Bool)
      → Flips (usual_rest self_upgrade flags b a) (usual_rest self_upgrade flags a b)
  unfolding usual_rest
  usual_rest_flip self_upgrade = ground arith

  usual_first_flip :
      (self_upgrade : Bool)
      → a.conflicts < 2 ^ 31
      → b.conflicts < 2 ^ 31
      → Flips (usual_first self_upgrade flags b a) (usual_first self_upgrade flags a b)
  unfolding usual_first
  usual_first_flip self_upgrade h k =
      ground (arith, int_sign-flip a.conflicts b.conflicts h k, usual_rest_flip self_upgrade)

  then_latest_flip :
      (va vb : Blob) → Flips (then_latest flags b vb a va) (then_latest flags a va b vb)
  unfolding then_latest
  then_latest_flip va vb = ground (
    arith,
    Flips-version va vb,
    Flips-version a.version b.version,
    same_name_swap a.name b.name,
    compare-flip a.provider_priority b.provider_priority,
    compare-flip (ffs b.repos) (ffs a.repos),
  )

  candidates_flip :
      (self_upgrade : Bool) (va vb : Blob)
      → a.conflicts < 2 ^ 31
      → b.conflicts < 2 ^ 31
      → Flips
          (compare_candidates self_upgrade flags b vb a va)
          (compare_candidates self_upgrade flags a va b vb)
  unfolding compare_candidates
  candidates_flip self_upgrade va vb h k =
      ground (arith, latest_first_flip, usual_first_flip self_upgrade h k, then_latest_flip va vb)

or_comm : (a b : Bool) → (b || a) ≡ (a || b)
or_comm a b = ground arith

or_flags_comm : (a b : Flags) → or_flags b a ≡ or_flags a b
or_flags_comm a b =
    rw
      (
        or_comm a.upgrade b.upgrade,
        or_comm a.available b.available,
        or_comm a.reinstall b.reinstall,
        or_comm a.latest b.latest,
        or_comm a.installed b.installed,
        or_comm a.remove b.remove,
      )
      refl

pkgs_flip :
    (self_upgrade : Bool) (a b : Option Candidate) (va vb : Blob)
    → FewConflicts a
    → FewConflicts b
    → Flips (compare_pkgs self_upgrade b vb a va) (compare_pkgs self_upgrade a va b vb)
unfolding compare_pkgs
pkgs_flip self_upgrade none none va vb h k = refl
pkgs_flip self_upgrade none (some b) va vb h k = refl
pkgs_flip self_upgrade (some a) none va vb h k = refl
pkgs_flip self_upgrade (some a) (some b) va vb h k =
    rw (or_flags_comm a.solver_flags b.solver_flags)
      (candidates_flip (or_flags a.solver_flags b.solver_flags) a b self_upgrade va vb h k)

-- Of two providers the comparison prefers the same one whichever is given first: with the two
-- exchanged, a preference for the first becomes one for the second, and a tie stays a tie. This is
-- for packages with less than 2^31 conflicts each.
pub compare_providers-flip :
    (self_upgrade : Bool) (a b : Offer)
    → FewConflicts a.pkg
    → FewConflicts b.pkg
    → compare_providers self_upgrade b a ≡ flip (compare_providers self_upgrade a b)
unfolding compare_providers
compare_providers-flip self_upgrade a b h k =
    pkgs_flip self_upgrade a.pkg b.pkg a.version b.version h k
