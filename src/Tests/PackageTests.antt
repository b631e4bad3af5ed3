-- ===== src/Tests/PackageTests.antt =====
-- Dependencies and packages: the results at small ones.
use apk_tools.Package.Array.{apk_deps_add, apk_deps_del}
use apk_tools.Blob.{blob}
use apk_tools.Package.Replaces.{
  apk_pkg_replaces_file, apk_pkg_replaces_no, apk_pkg_replaces_yes, apk_pkg_replaces_conflict,
}
use apk_tools.Package.Array.Laws.{dep_named, apk_deps_add_lem, apk_deps_del_lem}
use apk_tools.Blob.Digest.{Digest}
use apk_tools.Package.{Dependency, Package, Installed, same_name}
use apk_tools.Prelude.{
  [], refl, arith, List, codes, some, false, replicate, ◌≢◌, ◌≡◌, ◌∷◌, if◌then◌else◌, true, ◌⊎◌,
  All,
}
use apk_tools.Package.Replaces.Laws.{apk_pkg_replaces_file_swap}
use mathlib.Core.List.{Perm}

abbrev musl_dep : Dependency
musl_dep = record {
  name = codes "musl";
  version = blob (codes "1.2");
  op = 5;
  broken = false;
  repository_tag = 0;
  layer = 0;
}

abbrev not_busybox : Dependency
not_busybox = record musl_dep { name = codes "busybox"; op = 18 }

abbrev deps : List Dependency
deps = not_busybox ∷ musl_dep ∷ []

abbrev musl : Package
musl = record {
  id = 1;
  name = some (codes "musl");
  version = blob (codes "1.2.5-r0");
  origin = blob (codes "musl");
  provides = not_busybox ∷ [];
  digest = [];
}

abbrev busybox : Package
busybox = record musl { id = 2; name = some (codes "busybox"); origin = blob (codes "busybox") }

abbrev plain : Installed
plain = record { replaces = []; replaces_priority = 0; to_be_removed = false }

abbrev replacing : Installed
replacing = record { replaces = musl_dep ∷ []; replaces_priority = 10; to_be_removed = false }

abbrev unset : Digest
unset = record { alg = 0; len = 0; contents = replicate 64 0 }

apk_deps_add_lem_example :
    dep_named (apk_deps_add deps (record musl_dep { op = 1 })) (codes "musl") ≡ (
      if same_name (codes "musl") (codes "musl")
      then some (record musl_dep { op = 1 })
      else dep_named deps (codes "musl"))
apk_deps_add_lem_example = apk_deps_add_lem deps (record musl_dep { op = 1 }) (codes "musl")

apk_deps_del_lem_example :
    ((d : Dependency) × (same_name d.name (codes "musl") ≡ true)
      × Perm deps (d ∷ apk_deps_del deps (codes "musl")))
    ⊎ (All (λ d. same_name d.name (codes "musl") ≡ false) deps
        × (apk_deps_del deps (codes "musl") ≡ deps))
apk_deps_del_lem_example = apk_deps_del_lem deps (codes "musl")

names_differ : codes "musl" ≢ codes "busybox"
names_differ e = ground arith

apk_pkg_replaces_file_swap_example :
    ((apk_pkg_replaces_file unset musl plain busybox replacing ≡ apk_pkg_replaces_no)
      → apk_pkg_replaces_file unset busybox replacing musl plain ≡ apk_pkg_replaces_yes)
    × ((apk_pkg_replaces_file unset musl plain busybox replacing ≡ apk_pkg_replaces_conflict)
        → apk_pkg_replaces_file unset busybox replacing musl plain ≡ apk_pkg_replaces_conflict)
apk_pkg_replaces_file_swap_example =
    apk_pkg_replaces_file_swap unset musl plain busybox replacing (codes "musl") (codes "busybox")
      refl refl names_differ
