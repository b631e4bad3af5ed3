-- ===== src/Ctype/Classes.antt =====
-- The classes as ranges of characters, for every character, in the table or behind its end.
use apk_tools.Prelude.{
  ℕ, ◌<◌, ◌≤◌, Bool, true, false, ◌&&◌, ◌||◌, inl, inr, ◌≡◌, refl, arith, ltb, leb, ◌==◌,
  Bool-cases, ◌∙◌, sym,
}
use apk_tools.Prelude.Table.{all_below, all_below_sound}
use apk_tools.Ctype.{
  in_class, apk_ctype_hexdigit, apk_ctype_version_suffix, apk_ctype_dependency_comparer,
  apk_ctype_dependency_separator,
}

abbrev pub is_digit : ℕ → Bool
is_digit c = leb b'0' c && leb c b'9'

abbrev pub is_lower : ℕ → Bool
is_lower c = leb b'a' c && leb c b'z'

abbrev pub is_hexdigit : ℕ → Bool
is_hexdigit c = is_digit c || (leb b'a' c && leb c b'f')

abbrev pub is_comparer : ℕ → Bool
is_comparer c = c == b'<' || c == b'=' || c == b'>' || c == b'~'

abbrev pub is_separator : ℕ → Bool
is_separator c = c == b'\n' || c == b' '

abbrev pub same : Bool → Bool → Bool
same true b = b
same false true = false
same false false = true

pub same→eq : (a b : Bool) → same a b ≡ true → a ≡ b
same→eq a b h = ground arith

module _ (ctype : ℕ) (test : ℕ → Bool) where
  by_table :
      all_below 128 (λ x. same (in_class ctype x) (test x)) ≡ true
      → ((x : ℕ) → 128 ≤ x → in_class ctype x ≡ false)
      → ((x : ℕ) → 128 ≤ x → test x ≡ false)
      → (x : ℕ) → in_class ctype x ≡ test x
  by_table t beyond off x = elim (Bool-cases (ltb x 128)) [
    | inl lt ↦
        same→eq (in_class ctype x) (test x)
          (all_below_sound 128 (λ x. same (in_class ctype x) (test x)) x t (ground arith))
    | inr ge ↦ beyond x (ground arith) ∙ sym (off x (ground arith))
  ]

in_class_beyond1 : (ctype x : ℕ) → ctype < 8 → 128 ≤ x → in_class ctype x ≡ false
unfolding in_class
in_class_beyond1 ctype x h k = ground arith

in_class_beyond2 : (ctype x : ℕ) → 8 ≤ ctype → 128 ≤ x → in_class ctype x ≡ false
unfolding in_class
in_class_beyond2 ctype x h k = ground arith

pub in_class-hexdigit : (x : ℕ) → in_class apk_ctype_hexdigit x ≡ is_hexdigit x
unfolding all_below in_class
in_class-hexdigit =
    by_table 0 is_hexdigit refl (λ x h. in_class_beyond1 0 x (omega arith) h) (λ x h. ground arith)

pub in_class-version_suffix : (x : ℕ) → in_class apk_ctype_version_suffix x ≡ is_lower x
unfolding all_below in_class
in_class-version_suffix =
    by_table 2 is_lower refl (λ x h. in_class_beyond1 2 x (omega arith) h) (λ x h. ground arith)

pub in_class-dependency_comparer :
    (x : ℕ) → in_class apk_ctype_dependency_comparer x ≡ is_comparer x
unfolding all_below in_class
in_class-dependency_comparer =
    by_table 4 is_comparer refl (λ x h. in_class_beyond1 4 x (omega arith) h) (λ x h. ground arith)

pub in_class-dependency_separator :
    (x : ℕ) → in_class apk_ctype_dependency_separator x ≡ is_separator x
unfolding all_below in_class
in_class-dependency_separator =
    by_table 8 is_separator refl (λ x h. in_class_beyond2 8 x (omega arith) h) (λ x h. ground arith)
