-- ===== src/Package/Satisfies/Laws.antt =====
-- What a conflict asks, and which packages a dependency is about.
use apk_tools.Package.Array.Laws.{}
use apk_tools.Blob.{Blob}
use apk_tools.Version.{apk_version_conflict, apk_depmask_checksum}
use apk_tools.Version.Loop.{has}
use apk_tools.Package.{
  Dependency, Package, apk_version_conflict, Blob, false, List, some, is_named, same_name,
}
use apk_tools.Blob.Digest.{Digest}
use apk_tools.Prelude.{
  ℕ, Bool, ◌≢◌, Option, true, arith, false, List, some, ◌≡◌, ◌↔◌, ◌==◌, not, All, none, refl,
  Bool-cases, inl, inr, [], true_not_false,
}
use apk_tools.Package.Satisfies.{
  match_version, apk_dep_is_materialized, analyze_provides, apk_dep_analyze, Digest, Dependency,
  Option, true, apk_dep_irrelevant, apk_depmask_checksum, not, ◌∷◌, met_or_not,
}
use apk_tools.Version.Match.{operator, apk_version_match_lem}

relevant : (b : Bool) → met_or_not b ≢ apk_dep_irrelevant
relevant b h = ground arith

abbrev ConflictBits : Bool → Bool → Bool → Bool → Type 0
ConflictBits e l g f =
    (has (operator e l g f true) apk_version_conflict ≡ true)
    × (has (operator e l g f false) apk_version_conflict ≡ false)
    × ((operator e l g f true == apk_depmask_checksum) ≡ false)

conflict-bits : (e l g f : Bool) → ConflictBits e l g f
conflict-bits true true true true = (refl, refl, refl)
conflict-bits true true true false = (refl, refl, refl)
conflict-bits true true false true = (refl, refl, refl)
conflict-bits true true false false = (refl, refl, refl)
conflict-bits true false true true = (refl, refl, refl)
conflict-bits true false true false = (refl, refl, refl)
conflict-bits true false false true = (refl, refl, refl)
conflict-bits true false false false = (refl, refl, refl)
conflict-bits false true true true = (refl, refl, refl)
conflict-bits false true true false = (refl, refl, refl)
conflict-bits false true false true = (refl, refl, refl)
conflict-bits false true false false = (refl, refl, refl)
conflict-bits false false true true = (refl, refl, refl)
conflict-bits false false true false = (refl, refl, refl)
conflict-bits false false false true = (refl, refl, refl)
conflict-bits false false false false = (refl, refl, refl)

module _ (digest0 : Digest) where
  abbrev with_op : Dependency → ℕ → Dependency
  with_op dep op = record dep { op = op }

  match_version-conflict :
      (dep : Dependency) (pkg : Package) (version : Blob) (e l g f : Bool)
      → operator e l g f false ≢ apk_depmask_checksum
      → match_version digest0 (with_op dep (operator e l g f true)) pkg version
        ≡ not (match_version digest0 (with_op dep (operator e l g f false)) pkg version)
  unfolding match_version
  match_version-conflict dep pkg version e l g f h =
      let plain : (operator e l g f false == apk_depmask_checksum) ≡ false = ground arith in
      rw
        (
          (conflict-bits e l g f).2,
          plain,
          apk_version_match_lem version dep.version e l g f true,
          apk_version_match_lem version dep.version e l g f false,
        )
        refl

  -- A dependency with `!` is met exactly when the same one without it is not, by any package, by
  -- one of another name and by none at all; an operator that asks for a checksum is excepted.
  pub apk_dep_is_materialized-conflict :
      (dep : Dependency) (pkg : Option Package) (equal less greater fuzzy : Bool)
      → operator equal less greater fuzzy false ≢ apk_depmask_checksum
      → apk_dep_is_materialized digest0
          (record dep { op = operator equal less greater fuzzy true })
          pkg
        ≡ not (
            apk_dep_is_materialized digest0
              (record dep { op = operator equal less greater fuzzy false })
              pkg)
  unfolding apk_dep_is_materialized
  apk_dep_is_materialized-conflict dep none e l g f h =
      rw ((conflict-bits e l g f).0, (conflict-bits e l g f).1) refl
  apk_dep_is_materialized-conflict dep (some pkg) e l g f h =
      elim (Bool-cases (is_named pkg.name dep.name)) [
        | inl s ↦ rw s (match_version-conflict dep pkg pkg.version e l g f h)
        | inr n ↦ rw (n, (conflict-bits e l g f).0, (conflict-bits e l g f).1) refl
      ]

  provides_irrelevant_iff :
      (deppkg : Option ℕ) (dep : Dependency) (pkg : Package) (provides : List Dependency)
      → (analyze_provides digest0 deppkg dep pkg provides ≡ apk_dep_irrelevant)
        ↔ All (λ p. same_name p.name dep.name ≡ false) provides
  unfolding analyze_provides
  provides_irrelevant_iff deppkg dep pkg [] = (λ h. tt, λ h. refl)
  provides_irrelevant_iff deppkg dep pkg (p ∷ provides) =
      elim (Bool-cases (same_name p.name dep.name)) [
        | inl s ↦ rw s (λ h. absurd (relevant _ h), λ h. absurd (true_not_false true refl h.0))
        | inr n ↦ rw n (
          λ h. (refl, (provides_irrelevant_iff deppkg dep pkg provides).0 h),
          λ h. (provides_irrelevant_iff deppkg dep pkg provides).1 h.1,
        )
      ]

  -- A package is irrelevant to a dependency exactly when neither it nor anything that it provides
  -- has the dependency's name.
  pub apk_dep_analyze_irrelevant_iff :
      (deppkg : Option ℕ) (dep : Dependency) (pkg : Package)
      → (apk_dep_analyze digest0 deppkg dep (some pkg) ≡ apk_dep_irrelevant) ↔ (
          (is_named pkg.name dep.name ≡ false)
          × All (λ p. same_name p.name dep.name ≡ false) pkg.provides)
  unfolding apk_dep_analyze
  apk_dep_analyze_irrelevant_iff deppkg dep pkg = elim (Bool-cases (is_named pkg.name dep.name)) [
    | inl s ↦ rw s (λ h. absurd (relevant _ h), λ h. absurd (true_not_false true refl h.0))
    | inr n ↦ rw n (
      λ h. (refl, (provides_irrelevant_iff deppkg dep pkg pkg.provides).0 h),
      λ h. (provides_irrelevant_iff deppkg dep pkg pkg.provides).1 h.1,
    )
  ]
