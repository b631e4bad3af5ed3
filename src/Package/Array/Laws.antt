-- ===== src/Package/Array/Laws.antt =====
-- What `apk_deps_add` and `apk_deps_del` do to the dependency of each name.
use mathlib.Core.List.Perm as Perm
use mathlib.Core.List.{Perm}
use apk_tools.Blob.Compare.{memcmp-eq, memcmp_whole}
use apk_tools.Package.Array.{apk_deps_add, replace_by_last, apk_deps_del, last_or, all_but_last}
use apk_tools.Package.{Dependency, Bytes, same_name, Option, none, some, false}
use apk_tools.Blob.{apk_blob_compare}
use apk_tools.Prelude.{
  List, [], ◌∷◌, Bytes, ◌≡◌, Option, true, none, if◌then◌else◌, some, arith, Bool-cases, inl, inr,
  refl, false, ◌⊎◌, All, ap, ◌∙◌, sym, true_not_false,
}

pub same_name→eq : (a b : Bytes) → same_name a b ≡ true → a ≡ b
unfolding apk_blob_compare
same_name→eq a b h = memcmp-eq a b (ground arith) (ground arith)

pub same_name_self : (a : Bytes) → same_name a a ≡ true
unfolding apk_blob_compare
same_name_self a = rw (memcmp_whole a) (ground arith)

other_name : (a b c : Bytes) → same_name a b ≡ false → same_name a c ≡ true → same_name b c ≡ false
other_name a b c n h = elim (Bool-cases (same_name b c)) [
  | inr k ↦ k
  | inl k ↦ absurd (true_not_false _ (rw (same_name→eq b c k) h) n)
]

pub same_name_swap : (a b : Bytes) → same_name b a ≡ same_name a b
same_name_swap a b = elim (Bool-cases (same_name a b)) [
  | inl s ↦ rw (same_name→eq a b s) refl
  | inr n ↦ elim (Bool-cases (same_name b a)) [
    | inl t ↦ rw (same_name→eq b a t) refl
    | inr m ↦ m ∙ sym n
  ]
]

-- The first dependency of that name.
abbrev pub dep_named : List Dependency → Bytes → Option Dependency
dep_named [] name = none
dep_named (d ∷ deps) name = if same_name d.name name then some d else dep_named deps name

-- After `apk_deps_add` the name of the dependency has that one, and each other name has what it
-- had.
pub apk_deps_add_lem :
    (deps : List Dependency) (dep : Dependency) (name : Bytes)
    → dep_named (apk_deps_add deps dep) name
      ≡ (if same_name dep.name name then some dep else dep_named deps name)
unfolding apk_deps_add
apk_deps_add_lem [] dep name = refl
apk_deps_add_lem (d ∷ deps) dep name = elim (Bool-cases (same_name d.name dep.name)) [
  | inl s ↦ rw (s, same_name→eq d.name dep.name s) (ground arith)
  | inr n ↦ elim (Bool-cases (same_name d.name name)) [
    | inl t ↦ rw (n, t, other_name d.name dep.name name n t) refl
    | inr f ↦ rw (n, f) (apk_deps_add_lem deps dep name)
  ]
]

last-Perm :
    (e : Dependency) (deps : List Dependency)
    → Perm (e ∷ deps) (last_or e deps ∷ all_but_last e deps)
unfolding last_or all_but_last
last-Perm e [] = Perm.refl _
last-Perm e (f ∷ deps) = Perm.trans (Perm.cons e (last-Perm f deps)) (Perm.swap _ e _)

-- The last element moves to the place of the first.
replace_by_last-Perm :
    (d : Dependency) (deps : List Dependency) → Perm (d ∷ deps) (d ∷ replace_by_last d deps)
unfolding replace_by_last
replace_by_last-Perm d [] = Perm.refl _
replace_by_last-Perm d (e ∷ deps) = Perm.cons d (last-Perm e deps)

-- Some dependency of that name is taken out and the others stay, in some order; with none, all
-- stay.
pub apk_deps_del_lem :
    (deps : List Dependency) (name : Bytes)
    → ((d : Dependency) × (same_name d.name name ≡ true) × Perm deps (d ∷ apk_deps_del deps name))
      ⊎ (All (λ d. same_name d.name name ≡ false) deps × (apk_deps_del deps name ≡ deps))
unfolding apk_deps_del
apk_deps_del_lem [] name = inr (tt, refl)
apk_deps_del_lem (d ∷ deps) name = elim (Bool-cases (same_name d.name name)) [
  | inl s ↦ rw s (inl (d, s, replace_by_last-Perm d deps))
  | inr n ↦ rw n (elim (apk_deps_del_lem deps name) [
    | inl (e, s, p) ↦ inl (e, s, Perm.trans (Perm.cons d p) (Perm.swap e d _))
    | inr (h, q) ↦ inr ((refl, h), ap (◌∷◌ d) q)
  ])
]
