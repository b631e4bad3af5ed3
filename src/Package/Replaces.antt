-- ===== src/Package/Replaces.antt =====
-- src/package.c: which of two packages that own the same directory or file keeps it. `ai` and `bi`
-- are what the `ipkg` pointers of `a` and `b` lead to.
use apk_tools.Blob.{bytes, is_eq, apk_blob_compare}
use apk_tools.Blob.Compare.{lex}
use apk_tools.Blob.Digest.{Digest}
use apk_tools.Package.{
  Package, Bool, Installed, Option, Dependency, same_name, some, none, bytes, is_named, false,
}
pub mod Laws
use apk_tools.Prelude.{
  ℕ, List, [], ◌∷◌, Bytes, Ordering, if◌then◌else◌, Bool, Option, ltb, ◌&&◌, none, length, true,
  false,
}
use apk_tools.Package.Satisfies.{apk_dep_is_materialized}

pub data Replaces : Type 0 where
  apk_pkg_replaces_conflict apk_pkg_replaces_no apk_pkg_replaces_yes : Replaces

-- `strcmp` of the C library, as a sign, on texts with no NUL byte.
abbrev strcmp : Bytes → Bytes → Ordering
strcmp a b = lex a b

abbrev same_origin : Package → Package → Bool
same_origin a b =
    ltb 0 (length (bytes a.origin)) && is_eq (apk_blob_compare (bytes a.origin) (bytes b.origin))

abbrev is_gt : Ordering → Bool
is_gt Ordering.gt = true
is_gt _ = false

by_name : Bytes → Bytes → Replaces
by_name a b = if is_gt (strcmp a b) then apk_pkg_replaces_yes else apk_pkg_replaces_no

dir_origin : Package → Bytes → Package → Bytes → Replaces
dir_origin a an b bn =
    if same_origin a b && same_name (bytes a.origin) an
    then apk_pkg_replaces_no
    else if same_origin a b && same_name (bytes b.origin) bn
    then apk_pkg_replaces_yes
    else by_name an bn

-- Behind the tests on the overlay.
dir_named : Package → Bytes → Installed → Package → Bytes → Installed → Replaces
dir_named a an ai b bn bi =
    if same_name an bn
    then apk_pkg_replaces_yes
    else if ai.to_be_removed
    then apk_pkg_replaces_yes
    else if bi.to_be_removed
    then apk_pkg_replaces_no
    else if ltb bi.replaces_priority ai.replaces_priority
    then apk_pkg_replaces_no
    else if ltb ai.replaces_priority bi.replaces_priority
    then apk_pkg_replaces_yes
    else dir_origin a an b bn

dir_names : Package → Option Bytes → Installed → Package → Option Bytes → Installed → Replaces
dir_names a none ai b bn bi = apk_pkg_replaces_no
dir_names a (some an) ai b none bi = apk_pkg_replaces_yes
dir_names a (some an) ai b (some bn) bi = dir_named a an ai b bn bi

pub apk_pkg_replaces_dir : Package → Installed → Package → Installed → Replaces
unfolding dir_names dir_named dir_origin by_name
apk_pkg_replaces_dir a ai b bi = dir_names a a.name ai b b.name bi

module _ (digest0 : Digest) where
  -- A priority, or `none` for -1: of the first dependency that the other package meets.
  replaces_prio : List Dependency → ℕ → Package → Option ℕ
  replaces_prio [] priority pkg = none
  replaces_prio (dep ∷ deps) priority pkg =
      if apk_dep_is_materialized digest0 dep (some pkg)
      then some priority
      else replaces_prio deps priority pkg

  -- The tests on the two priorities, and the origins.
  by_priority : Option ℕ → Option ℕ → Package → Package → Replaces
  by_priority (some ap) none a b = apk_pkg_replaces_no
  by_priority (some ap) (some bp) a b =
      if ltb bp ap then apk_pkg_replaces_no else apk_pkg_replaces_yes
  by_priority none (some bp) a b = apk_pkg_replaces_yes
  by_priority none none a b =
      if same_origin a b then apk_pkg_replaces_yes else apk_pkg_replaces_conflict

  file_named : Package → Installed → Package → Installed → Replaces
  file_named a ai b bi =
      if ai.to_be_removed
      then apk_pkg_replaces_yes
      else if bi.to_be_removed
      then apk_pkg_replaces_no
      else by_priority (replaces_prio ai.replaces ai.replaces_priority b)
          (replaces_prio bi.replaces bi.replaces_priority a) a b

  file_names : Option Bytes → Package → Installed → Package → Installed → Replaces
  file_names none a ai b bi = apk_pkg_replaces_yes
  file_names (some an) a ai b bi =
      if is_named b.name an then apk_pkg_replaces_yes else file_named a ai b bi

  pub apk_pkg_replaces_file : Package → Installed → Package → Installed → Replaces
  unfolding file_names file_named by_priority replaces_prio
  apk_pkg_replaces_file a ai b bi = file_names a.name a ai b bi
