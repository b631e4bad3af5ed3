-- ===== src/Package/Pull/Listed.antt =====
-- The text of a dependency that stands in a package's lists, and what is parsed from it.
use apk_tools.Version.Loop.{has}
use apk_tools.Ctype.Classes.{is_comparer, in_class-dependency_separator}
use apk_tools.Version.Ops.{without_conflict, apk_version_op_string}
use apk_tools.Blob.Search.Laws.{Without}
use apk_tools.Version.OpText.{is_printed}
use apk_tools.Version.{apk_depmask_any, apk_version_conflict}
use apk_tools.Ctype.{in_class, apk_ctype_dependency_separator, apk_ctype_dependency_comparer}
use apk_tools.Blob.{Blob, bytes, blob, null}
use apk_tools.Package.{Dependency, false, apk_version_conflict, has}
use apk_tools.Prelude.{
  ℕ, Bytes, List, none, All, ◌≡◌, ◌∷◌, inl, ◌≢◌, ◌++◌, inr, ◌<◌, ◌⊎◌, false, [], ◌+◌, true, refl,
  Bool-cases, if◌then◌else◌, ◌%◌, All-imp, arith, codes, ◌∙◌,
}
use apk_tools.Package.Pull.{dep_broken, Dependency, Blob, [], atom, codes}
use apk_tools.Package.Parse.{apk_dep_parse}
use apk_tools.Package.Parse.RoundTrip.{
  parse_dep-text, parse_any-text, dep_text, printed_text, NoComparer,
}

-- No character of the text separates dependencies.
abbrev pub NoSeparator : Bytes → Type 0
NoSeparator b = All (λ c. in_class apk_ctype_dependency_separator c ≡ false) b

-- An operator that is printed, and a version that does not begin with a comparison character.
pub record IsVersioned (d : Dependency) : Type 0 where
  pub first : ℕ
  pub rest : Bytes
  pub version_eq : d.version ≡ blob (first ∷ rest)
  pub small : d.op < 32
  pub printed : is_printed (without_conflict d.op) ≡ true
  pub starts : in_class apk_ctype_dependency_comparer first ≡ false
  pub separate : NoSeparator (first ∷ rest)

-- No operator and no version, or these with '!'.
pub record IsAny (d : Dependency) : Type 0 where
  pub version_eq : d.version ≡ blob []
  pub op_eq : (d.op ≡ apk_depmask_any) ⊎ (d.op ≡ apk_depmask_any + apk_version_conflict)

-- A dependency that stands in a package's own lists: it has a name with no character that means
-- something in the text, no tag and no layer, and a valid version where its operator compares one.
pub record IsListed (d : Dependency) : Type 0 where
  pub first : ℕ
  pub rest : Bytes
  pub name_eq : d.name ≡ first ∷ rest
  pub no_bang : first ≢ b'!'
  pub no_comparer : NoComparer (first ∷ rest)
  pub no_separator : NoSeparator (first ∷ rest)
  pub no_at : Without b'@' (first ∷ rest)
  pub has_version : IsVersioned d ⊎ IsAny d
  pub valid : dep_broken d.op d.version ≡ false
  pub not_broken : d.broken ≡ false
  pub no_tag : d.repository_tag ≡ 0
  pub no_layer : d.layer ≡ 0

abbrev pub text_of : Dependency → Bytes
text_of d = dep_text d.op d.name (bytes d.version)

abbrev pub tail_text : List Dependency → Bytes
tail_text [] = []
tail_text (d ∷ ds) = b' ' ∷ (text_of d ++ tail_text ds)

-- The texts of the dependencies with a space between two.
abbrev pub list_text : List Dependency → Bytes
list_text [] = []
list_text (d ∷ ds) = text_of d ++ tail_text ds

-- What is parsed from the text of a listed dependency.
abbrev pub Parsed : Dependency → Blob → Type 0
Parsed d version =
    (apk_dep_parse (blob (text_of d))
      ≡ record { ret = none; name = blob d.name; rop = d.op; version = version })
    × (atom version ≡ d.version)
    × (dep_broken d.op version ≡ false)

broken_any :
    (op : ℕ) (v : Blob)
    → (op ≡ apk_depmask_any) ⊎ (op ≡ apk_depmask_any + apk_version_conflict)
    → dep_broken op v ≡ false
unfolding dep_broken
broken_any op v (inl e) = rw e refl
broken_any op v (inr e) = rw e refl

pub parsed : (d : Dependency) → IsListed d → (version : Blob) × Parsed d version
parsed d l = elim (l.has_version) [
  | inl v ↦ (
    d.version,
    (
      rw (l.name_eq, v.version_eq)
          (parse_dep-text d.op l.first l.rest v.first v.rest v.small v.printed l.no_comparer
            l.no_bang v.starts),
      rw v.version_eq refl,
      l.valid,
    ),
  )
  | inr a ↦ (
    null,
    (
      rw (l.name_eq, a.version_eq)
          (parse_any-text d.op l.first l.rest a.op_eq l.no_comparer l.no_bang),
      rw a.version_eq refl,
      broken_any d.op null a.op_eq,
    ),
  )
]

comparer-NoSeparator : (op : Bytes) → All (λ x. is_comparer x ≡ true) op → NoSeparator op
comparer-NoSeparator op =
    All-imp (λ x. is_comparer x ≡ true) (λ x. in_class apk_ctype_dependency_separator x ≡ false) op
      (λ x h. in_class-dependency_separator x ∙ ground arith)

NoSeparator-append : (a b : Bytes) → NoSeparator a → NoSeparator b → NoSeparator (a ++ b)
NoSeparator-append [] b h k = k
NoSeparator-append (x ∷ a) b (hx, h) k = (hx, NoSeparator-append a b h k)

bang-NoSeparator : (op : ℕ) → NoSeparator (if has op apk_version_conflict then codes "!" else [])
bang-NoSeparator op = elim (Bool-cases (has op apk_version_conflict)) [
  | inl s ↦ rw s (in_class-dependency_separator b'!', tt)
  | inr n ↦ rw n tt
]

any-NoSeparator :
    (op : ℕ)
    → (op ≡ apk_depmask_any) ⊎ (op ≡ apk_depmask_any + apk_version_conflict)
    → NoSeparator (apk_version_op_string op ++ [])
unfolding apk_version_op_string
any-NoSeparator op (inl e) = rw e tt
any-NoSeparator op (inr e) = rw e tt

version-NoSeparator :
    (d : Dependency) → IsListed d → NoSeparator (apk_version_op_string d.op ++ bytes d.version)
version-NoSeparator d l = elim (l.has_version) [
  | inl v ↦ rw v.version_eq (
      NoSeparator-append (apk_version_op_string d.op) (v.first ∷ v.rest)
        (comparer-NoSeparator _ (printed_text d.op v.small v.printed).1) v.separate)
  | inr a ↦ rw a.version_eq (any-NoSeparator d.op a.op_eq)
]

pub text-NoSeparator : (d : Dependency) → IsListed d → NoSeparator (text_of d)
text-NoSeparator d l =
    NoSeparator-append _ _ (bang-NoSeparator d.op)
      (NoSeparator-append d.name _ (rw l.name_eq l.no_separator) (version-NoSeparator d l))

-- The text begins with a character that is no separator.
pub text-first :
    (d : Dependency)
    → IsListed d
    → (y : ℕ) × (r : Bytes) × (text_of d ≡ y ∷ r)
      × (in_class apk_ctype_dependency_separator y ≡ false)
text-first d l = elim (Bool-cases (has d.op apk_version_conflict)) [
  | inl s ↦ (
    b'!',
    d.name ++ (apk_version_op_string d.op ++ bytes d.version),
    rw s refl,
    in_class-dependency_separator b'!',
  )
  | inr n ↦ (
    l.first,
    l.rest ++ (apk_version_op_string d.op ++ bytes d.version),
    rw (n, l.name_eq) refl,
    l.no_separator.0,
  )
]

pub small_op : (d : Dependency) → IsListed d → d.op % 256 ≡ d.op
small_op d l = elim (l.has_version) [
  | inl v ↦ let h : d.op < 32 = v.small in omega arith
  | inr a ↦ ground (arith, a.op_eq)
]
