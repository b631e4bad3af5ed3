-- ===== src/Package/Replaces/Laws.antt =====
-- Asked the other way round, the functions that choose between two packages give the other answer.
use apk_tools.Prelude.Order.{flip}
use apk_tools.Blob.{bytes}
use apk_tools.Package.Array.Laws.{same_name→eq, same_name_swap}
use apk_tools.Blob.Digest.{Digest}
use apk_tools.Package.{Package, Installed, some, false, same_name, bytes, Option, ℕ, is_named}
use apk_tools.Blob.Compare.{lex-flip, lex, lex-eq}
use apk_tools.Prelude.{
  none, Bytes, ◌≢◌, ◌≡◌, ◌&&◌, some, false, Bool-cases, Ordering, inl, inr, if◌then◌else◌, true,
  arith, refl, sym, ltb, Option, length, ap, ℕ, ◌∙◌,
}
use apk_tools.Package.Replaces.{
  Replaces, apk_pkg_replaces_no, apk_pkg_replaces_yes, apk_pkg_replaces_conflict, by_name,
  apk_pkg_replaces_dir, apk_pkg_replaces_file, Bytes, dir_names, file_names, dir_named, file_named,
  dir_origin, by_priority, Package, Digest, Ordering, same_origin, true, is_gt, ltb, length,
  replaces_prio,
}

abbrev pub opposite : Replaces → Replaces
opposite apk_pkg_replaces_yes = apk_pkg_replaces_no
opposite apk_pkg_replaces_no = apk_pkg_replaces_yes
opposite apk_pkg_replaces_conflict = apk_pkg_replaces_conflict

decided :
    (o : Ordering)
    → o ≢ Ordering.eq
    → (if is_gt (flip o) then apk_pkg_replaces_yes else apk_pkg_replaces_no)
      ≡ opposite (if is_gt o then apk_pkg_replaces_yes else apk_pkg_replaces_no)
decided Ordering.lt h = refl
decided Ordering.eq h = absurd (h refl)
decided Ordering.gt h = refl

strcmp_opposite : (a b : Bytes) → a ≢ b → by_name b a ≡ opposite (by_name a b)
unfolding by_name
strcmp_opposite a b d = rw (lex-flip a b) (decided (lex a b) (λ e. d (lex-eq a b e)))

different : (a b : Bytes) → a ≢ b → same_name a b ≡ false
different a b d = elim (Bool-cases (same_name a b)) [
  | inl s ↦ absurd (d (same_name→eq a b s))
  | inr n ↦ n
]

origins_swap :
    (x y : Bytes) → (ltb 0 (length y) && same_name y x) ≡ (ltb 0 (length x) && same_name x y)
origins_swap x y = elim (Bool-cases (same_name x y)) [
  | inl s ↦ rw (same_name→eq x y s) refl
  | inr n ↦ rw (same_name_swap x y, n) (ground arith)
]

different_origins : (x an bn : Bytes) → an ≢ bn → (same_name x an && same_name x bn) ≡ false
different_origins x an bn d = elim (Bool-cases (same_name x an)) [
  | inr n ↦ rw n refl
  | inl s ↦ rw (s, same_name→eq x an s) (different an bn d)
]

same_origin_swap : (a b : Package) → same_origin b a ≡ same_origin a b
same_origin_swap a b = origins_swap (bytes a.origin) (bytes b.origin)

origin_text : (a b : Package) → same_origin a b ≡ true → bytes a.origin ≡ bytes b.origin
origin_text a b h = same_name→eq _ _ (ground arith)

dir_origin_swap :
    (a : Package) (an : Bytes) (b : Package) (bn : Bytes)
    → an ≢ bn
    → dir_origin b bn a an ≡ opposite (dir_origin a an b bn)
unfolding dir_origin
dir_origin_swap a an b bn d =
    let e = strcmp_opposite an bn d in
    elim (Bool-cases (same_origin a b)) [
      | inr n ↦ rw (same_origin_swap a b, n) e
      | inl s ↦
          let not_both = different_origins (bytes b.origin) an bn d in
          rw (same_origin_swap a b, s, origin_text a b s) (ground (arith, not_both, e))
    ]

named_swap :
    (a : Package) (ai : Installed) (b : Package) (bi : Installed) (an bn : Bytes)
    → an ≢ bn
    → ai.to_be_removed && bi.to_be_removed ≡ false
    → dir_named b bn bi a an ai ≡ opposite (dir_named a an ai b bn bi)
unfolding dir_named
named_swap a ai b bi an bn d r =
    rw (different an bn d, different bn an (λ e. d (sym e)))
      (ground (arith, dir_origin_swap a an b bn d))

names_swap :
    (a : Package) (ai : Installed) (b : Package) (bi : Installed) (an bn : Option Bytes)
    → an ≢ bn
    → ai.to_be_removed && bi.to_be_removed ≡ false
    → dir_names b bn bi a an ai ≡ opposite (dir_names a an ai b bn bi)
unfolding dir_names
names_swap a ai b bi none none d r = absurd (d refl)
names_swap a ai b bi none (some bn) d r = refl
names_swap a ai b bi (some an) none d r = refl
names_swap a ai b bi (some an) (some bn) d r = named_swap a ai b bi an bn (λ e. d (ap some e)) r

-- Unless both packages are being removed, of two packages with different names exactly one keeps
-- a directory that both own: asked with the two exchanged, `apk_pkg_replaces_dir` gives the
-- opposite of what it gave.
pub apk_pkg_replaces_dir_swap :
    (a : Package) (ai : Installed) (b : Package) (bi : Installed)
    → a.name ≢ b.name
    → ai.to_be_removed && bi.to_be_removed ≡ false
    → apk_pkg_replaces_dir b bi a ai ≡ opposite (apk_pkg_replaces_dir a ai b bi)
unfolding apk_pkg_replaces_dir
apk_pkg_replaces_dir_swap a ai b bi d r = names_swap a ai b bi a.name b.name d r

module _ (digest0 : Digest) where
  file_result :
      (a : Package) (ai : Installed) (b : Package) (bi : Installed) (an bn : Bytes)
      → a.name ≡ some an
      → b.name ≡ some bn
      → bn ≢ an
      → apk_pkg_replaces_file digest0 a ai b bi ≡ file_named digest0 a ai b bi
  unfolding apk_pkg_replaces_file file_names
  file_result a ai b bi an bn ea eb d =
      ap (λ n. file_names digest0 n a ai b bi) ea
      ∙ ap (λ n. if is_named n an then apk_pkg_replaces_yes else file_named digest0 a ai b bi) eb
      ∙ rw (different bn an d) refl

  by_priority_no :
      (a b : Package) (p q : Option ℕ)
      → by_priority digest0 p q a b ≡ apk_pkg_replaces_no
      → by_priority digest0 q p b a ≡ apk_pkg_replaces_yes
  unfolding by_priority
  by_priority_no a b none none h = ground arith
  by_priority_no a b none (some q) h = ground arith
  by_priority_no a b (some p) none h = refl
  by_priority_no a b (some p) (some q) h = ground arith

  by_priority_conflict :
      (a b : Package) (p q : Option ℕ)
      → by_priority digest0 p q a b ≡ apk_pkg_replaces_conflict
      → by_priority digest0 q p b a ≡ apk_pkg_replaces_conflict
  unfolding by_priority
  by_priority_conflict a b none none h = rw (same_origin_swap a b) h
  by_priority_conflict a b none (some q) h = ground arith
  by_priority_conflict a b (some p) none h = ground arith
  by_priority_conflict a b (some p) (some q) h = ground arith

  file_named_swap :
      (a : Package) (ai : Installed) (b : Package) (bi : Installed)
      → ((file_named digest0 a ai b bi ≡ apk_pkg_replaces_no)
          → file_named digest0 b bi a ai ≡ apk_pkg_replaces_yes)
        × ((file_named digest0 a ai b bi ≡ apk_pkg_replaces_conflict)
            → file_named digest0 b bi a ai ≡ apk_pkg_replaces_conflict)
  unfolding file_named
  file_named_swap a ai b bi =
      let pa = replaces_prio digest0 ai.replaces ai.replaces_priority b in
      let pb = replaces_prio digest0 bi.replaces bi.replaces_priority a in
      (
        λ h. ground (arith, by_priority_no a b pa pb),
        λ h. ground (arith, by_priority_conflict a b pa pb),
      )

-- Where neither package is the overlay and the names differ, asking `apk_pkg_replaces_file` with
-- the two packages exchanged turns a `no` into a `yes`, and a conflict stays a conflict.
pub apk_pkg_replaces_file_swap :
    (digest0 : Digest) (a : Package) (ai : Installed) (b : Package) (bi : Installed) (an bn : Bytes)
    → a.name ≡ some an
    → b.name ≡ some bn
    → an ≢ bn
    → ((apk_pkg_replaces_file digest0 a ai b bi ≡ apk_pkg_replaces_no)
        → apk_pkg_replaces_file digest0 b bi a ai ≡ apk_pkg_replaces_yes)
      × ((apk_pkg_replaces_file digest0 a ai b bi ≡ apk_pkg_replaces_conflict)
          → apk_pkg_replaces_file digest0 b bi a ai ≡ apk_pkg_replaces_conflict)
apk_pkg_replaces_file_swap digest0 a ai b bi an bn ea eb d =
    rw
      (
        file_result digest0 a ai b bi an bn ea eb (λ e. d (sym e)),
        file_result digest0 b bi a ai bn an eb ea d,
      )
      (file_named_swap digest0 a ai b bi)
