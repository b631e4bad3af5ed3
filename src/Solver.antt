-- ===== src/Solver.antt =====
-- src/solver.c, src/apk_solver_data.h: which of two providers of a name the solver prefers. The
-- state of the solver itself and its loops over names are not here.
pub mod Laws
use apk_tools.Version.{apk_version_less, apk_version_greater}
use apk_tools.Version.Loop.{apk_version_compare}
use apk_tools.Blob.{Blob}
use apk_tools.Prelude.{
  none, some, ℕ, zero, suc, Bool, ◌||◌, Bytes, Option, ◌+◌, Ordering, ◌/◌, if◌then◌else◌, compare,
  ◌==◌, true, ◌%◌, ◌&&◌, not, false,
}
use apk_tools.Prelude.Order.{◌then_by◌, int_sign}
use apk_tools.Package.{same_name}

-- The bits of `solver_flags`, less APK_SOLVERF_IGNORE_CONFLICT, which the comparison does not read.
pub record Flags : Type 0 where
  pub upgrade : Bool
  pub available : Bool
  pub reinstall : Bool
  pub latest : Bool
  pub installed : Bool
  pub remove : Bool

-- `a | b`.
abbrev pub or_flags : Flags → Flags → Flags
or_flags a b = record {
  upgrade = a.upgrade || b.upgrade;
  available = a.available || b.available;
  reinstall = a.reinstall || b.reinstall;
  latest = a.latest || b.latest;
  installed = a.installed || b.installed;
  remove = a.remove || b.remove;
}

-- What the comparison reads of `struct apk_package` and of its `ss`, a
-- `struct apk_solver_package_state`; `has_ipkg` is `ipkg != NULL`.
pub record Candidate : Type 0 where
  pub name : Bytes
  pub version : Blob
  pub has_ipkg : Bool
  pub provider_priority : ℕ
  pub repos : ℕ
  pub solver_flags : Flags
  pub pinning_allowed : ℕ
  pub conflicts : ℕ
  pub pkg_available : Bool
  pub pkg_selectable : Bool
  pub tag_ok : Bool
  pub tag_preferred : Bool
  pub dependencies_used : Bool

-- `struct apk_provider`, whose package is `none` where the pointer is NULL.
pub record Offer : Type 0 where
  pub pkg : Option Candidate
  pub version : Blob

abbrev pub apk_default_pinning_mask : ℕ
apk_default_pinning_mask = 1

-- `ffs` of the C library on the 32 bits of `repos`, from the bit `i`.
ffs_from : ℕ → ℕ → ℕ → ℕ
ffs_from zero i n = 0
ffs_from (suc left) i n =
    let rest = ffs_from left (i + 1) (n / 2) in if n % 2 == 1 then i + 1 else rest

pub ffs : ℕ → ℕ
unfolding ffs_from
ffs n = ffs_from 32 0 n

-- The sign of `(int) a - (int) b` for two bits.
abbrev pub by_bit : Bool → Bool → Ordering
by_bit true false = Ordering.gt
by_bit false true = Ordering.lt
by_bit _ _ = Ordering.eq

-- A test that a condition guards.
abbrev pub when : Bool → Ordering → Ordering
when c o = if c then o else Ordering.eq

-- The `switch` on the result of a comparison of versions.
abbrev pub by_result : ℕ → Ordering
by_result r =
    if r == apk_version_less
    then Ordering.lt
    else if r == apk_version_greater
    then Ordering.gt
    else Ordering.eq

-- The first branch, where the latest version is required and neither package is pinned.
latest_first : Flags → Candidate → Candidate → Ordering
latest_first flags a b =
    by_bit a.tag_ok b.tag_ok
    then_by (if flags.available
        then by_bit a.pkg_available b.pkg_available
        else when flags.reinstall (by_bit a.pkg_selectable b.pkg_selectable))

-- The other branch from "Prefer installed on self-upgrade" on.
usual_rest : Bool → Flags → Candidate → Candidate → Ordering
usual_rest self_upgrade flags a b =
    when ((self_upgrade && not flags.upgrade) || flags.installed) (by_bit a.has_ipkg b.has_ipkg)
    then_by by_bit a.tag_ok b.tag_ok
    then_by when flags.available (by_bit a.pkg_available b.pkg_available)
    then_by by_bit a.tag_preferred b.tag_preferred
    then_by when (not (flags.remove || flags.upgrade)) (by_bit a.has_ipkg b.has_ipkg)

-- The other branch. The difference of the two unsigned numbers of conflicts is cut to an `int`.
usual_first : Bool → Flags → Candidate → Candidate → Ordering
usual_first self_upgrade flags a b =
    by_bit a.pkg_selectable b.pkg_selectable
    then_by by_bit a.dependencies_used b.dependencies_used
    then_by int_sign b.conflicts a.conflicts
    then_by usual_rest self_upgrade flags a b

-- The tests behind both branches.
then_latest : Flags → Candidate → Blob → Candidate → Blob → Ordering
then_latest flags a va b vb =
    by_result (apk_version_compare va vb)
    then_by when (same_name a.name b.name) (by_result (apk_version_compare a.version b.version))
    then_by compare a.provider_priority b.provider_priority
    then_by when (not flags.remove) (by_bit a.has_ipkg b.has_ipkg)
    then_by by_bit a.pkg_selectable b.pkg_selectable
    then_by compare (ffs b.repos) (ffs a.repos)

abbrev is_default : ℕ → Bool
is_default pinning = pinning == apk_default_pinning_mask

compare_candidates : Bool → Flags → Candidate → Blob → Candidate → Blob → Ordering
compare_candidates self_upgrade flags a va b vb =
    (if flags.latest && (is_default a.pinning_allowed && is_default b.pinning_allowed)
      then latest_first flags a b
      else usual_first self_upgrade flags a b)
    then_by then_latest flags a va b vb

compare_pkgs : Bool → Option Candidate → Blob → Option Candidate → Blob → Ordering
compare_pkgs self_upgrade none va none vb = Ordering.eq
compare_pkgs self_upgrade none va (some b) vb = Ordering.lt
compare_pkgs self_upgrade (some a) va none vb = Ordering.gt
compare_pkgs self_upgrade (some a) va (some b) vb =
    compare_candidates self_upgrade (or_flags a.solver_flags b.solver_flags) a va b vb

-- The sign of the result; `self_upgrade` is `db->performing_self_upgrade`.
pub compare_providers : Bool → Offer → Offer → Ordering
unfolding compare_pkgs compare_candidates latest_first usual_first usual_rest then_latest
compare_providers self_upgrade a b = compare_pkgs self_upgrade a.pkg a.version b.pkg b.version
