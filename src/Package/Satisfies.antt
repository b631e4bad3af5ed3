-- ===== src/Package/Satisfies.antt =====
-- src/package.c: whether a package meets a dependency. `digest0` is what the uninitialised
-- `struct apk_digest d` of `apk_dep_match_checksum` holds.
pub mod Laws
use apk_tools.Version.Loop.{apk_version_match}
use apk_tools.Version.{apk_depmask_checksum}
use apk_tools.Blob.{Blob, blob, is_eq, bytes, apk_blob_compare}
use apk_tools.Blob.Digest.{Digest, apk_blob_pull_digest, digest_blob}
use apk_tools.Prelude.{
  ℕ, Option, Bool, if◌then◌else◌, Bytes, List, ◌==◌, ◌&&◌, not, ◌∷◌, false, none, true, [],
}
use apk_tools.Package.{
  Dependency, Package, Provider, apk_dep_conflict, is_named, same_name, ℕ, Option, Bool, Blob,
  Bytes, some, List, false,
}

abbrev pub apk_dep_irrelevant : ℕ
apk_dep_irrelevant = 1

abbrev pub apk_dep_satisfies : ℕ
apk_dep_satisfies = 2

abbrev pub apk_dep_conflicts : ℕ
apk_dep_conflicts = 4

abbrev pub met_or_not : Bool → ℕ
met_or_not met = if met then apk_dep_satisfies else apk_dep_conflicts

-- The digest's memory before it is read, on the stack, is taken to be the same at each call.
module _ (digest0 : Digest) where
  -- A read behind the end of the checksum's text is taken not to match.
  same_digest : Option (Blob × Digest) → Bytes → Bool
  same_digest none hash = false
  same_digest (some (b, d)) hash = is_eq (apk_blob_compare (digest_blob d) hash)

  pub apk_dep_match_checksum : Dependency → Package → Bool
  unfolding same_digest
  apk_dep_match_checksum dep pkg = same_digest (apk_blob_pull_digest dep.version digest0) pkg.digest

  match_version : Dependency → Package → Blob → Bool
  match_version dep pkg version =
      if dep.op == apk_depmask_checksum
      then apk_dep_match_checksum dep pkg
      else apk_version_match version dep.op dep.version

  -- `deppkg` is the package that has the dependency, and `none` where it is NULL; so is `p`.
  pub apk_dep_is_provided : Option ℕ → Dependency → Option Provider → Bool
  unfolding match_version
  apk_dep_is_provided deppkg dep none = apk_dep_conflict dep
  apk_dep_is_provided none dep (some p) = match_version dep p.pkg p.version
  apk_dep_is_provided (some deppkg) dep (some p) =
      if apk_dep_conflict dep && (deppkg == p.pkg.id)
      then true
      else match_version dep p.pkg p.version

  pub apk_dep_is_materialized : Dependency → Option Package → Bool
  unfolding match_version
  apk_dep_is_materialized dep none = apk_dep_conflict dep
  apk_dep_is_materialized dep (some pkg) =
      if not (is_named pkg.name dep.name)
      then apk_dep_conflict dep
      else match_version dep pkg pkg.version

  -- The loop over what the package provides.
  analyze_provides : Option ℕ → Dependency → Package → List Dependency → ℕ
  analyze_provides deppkg dep pkg [] = apk_dep_irrelevant
  analyze_provides deppkg dep pkg (p ∷ provides) =
      if not (same_name p.name dep.name)
      then analyze_provides deppkg dep pkg provides
      else met_or_not
          (apk_dep_is_provided deppkg dep (some (record { pkg = pkg; version = p.version })))

  pub apk_dep_analyze : Option ℕ → Dependency → Option Package → ℕ
  unfolding analyze_provides
  apk_dep_analyze deppkg dep none = apk_dep_irrelevant
  apk_dep_analyze deppkg dep (some pkg) =
      if is_named pkg.name dep.name
      then met_or_not (apk_dep_is_materialized dep (some pkg))
      else analyze_provides deppkg dep pkg pkg.provides
