-- ===== src/Ctype.antt =====
-- src/ctype.c: the character classes, and the spans `apk_blob_spn` and `apk_blob_cspn`.
pub mod Classes
pub mod Spans
use apk_tools.Prelude.{
  ℕ, ◌-◌, ◌^◌, Bool, true, false, not, ◌&&◌, ◌||◌, List, [], ◌∷◌, ◌++◌, bit_and, bit_or, ltb, leb,
  ◌==◌, if◌then◌else◌, length, get_or, replicate, Bytes,
}

abbrev pub apk_ctype_hexdigit : ℕ
apk_ctype_hexdigit = 0

abbrev pub apk_ctype_package_name : ℕ
apk_ctype_package_name = 1

abbrev pub apk_ctype_version_suffix : ℕ
apk_ctype_version_suffix = 2

abbrev pub apk_ctype_dependency_comparer : ℕ
apk_ctype_dependency_comparer = 4

abbrev pub apk_ctype_variable_name : ℕ
apk_ctype_variable_name = 5

abbrev pub apk_ctype_dependency_separator : ℕ
apk_ctype_dependency_separator = 8

abbrev pub apk_ctype_repository_separator : ℕ
apk_ctype_repository_separator = 9

-- The class masks: `BIT(ctype)` for each class that a character is in.
abbrev hexdgt : ℕ
hexdgt = 2 ^ 0

abbrev pkgname : ℕ
pkgname = bit_or (2 ^ 1) (2 ^ 3)

abbrev versuf : ℕ
versuf = 2 ^ 2

abbrev depname : ℕ
depname = 2 ^ 3

abbrev depcomp : ℕ
depcomp = 2 ^ 4

abbrev varname : ℕ
varname = bit_or (2 ^ 5) (2 ^ 6)

abbrev tagname : ℕ
tagname = 2 ^ 6

infixl 60 ◌orr◌
abbrev ◌orr◌ : ℕ → ℕ → ℕ
a orr b = bit_or a b

-- The entries of the table from index 0 to '~'; the runs of the source's like entries are one
-- `replicate` each.
apk_ctype1 : Bytes
apk_ctype1 =
    replicate 43 0
    ++ ((pkgname orr tagname) ∷ (depname orr tagname) ∷ [])
    ++ ((pkgname orr tagname) ∷ (pkgname orr tagname) ∷ (depname orr tagname) ∷ [])
    ++ replicate 10 (hexdgt orr pkgname orr varname)
    ++ ((depname orr tagname) ∷ 0 ∷ depcomp ∷ (depcomp orr tagname) ∷ depcomp ∷ 0 ∷ 0 ∷ [])
    ++ replicate 26 (pkgname orr varname)
    ++ ((depname orr tagname) ∷ 0 ∷ (depname orr tagname) ∷ 0 ∷ (pkgname orr varname) ∷ 0 ∷ [])
    ++ replicate 6 (hexdgt orr versuf orr pkgname orr varname)
    ++ replicate 20 (versuf orr pkgname orr varname)
    ++ (0 ∷ 0 ∷ 0 ∷ depcomp ∷ [])

abbrev depsep : ℕ
depsep = 2 ^ 0

abbrev reposep : ℕ
reposep = 2 ^ 1

apk_ctype2 : Bytes
apk_ctype2 =
    replicate 9 0 ++ (reposep ∷ depsep ∷ []) ++ replicate 21 0 ++ ((reposep orr depsep) ∷ [])

-- The class of a character: `ch < ctype_sz && (ctype_data[ch] & mask)` over the table and the mask
-- that `get_array` picks.
unfoldable pub in_class : ℕ → ℕ → Bool
unfolding apk_ctype1 apk_ctype2
in_class ctype ch =
    if leb 8 ctype
    then ltb ch (length apk_ctype2) && ltb 0 (bit_and (get_or apk_ctype2 ch 0) (2 ^ (ctype - 8)))
    else ltb ch (length apk_ctype1) && ltb 0 (bit_and (get_or apk_ctype1 ch 0) (2 ^ ctype))

-- The three results of a span: the return value and the two halves written through `l` and `r`.
pub record Span : Type 0 where
  pub ret : Bool
  pub l : Bytes
  pub r : Bytes

abbrev pub longer : ℕ → Span → Span
longer c s = record s { l = c ∷ s.l }

-- The loop that both functions run, up to the first character that stops it.
unfoldable pub span_until : (ℕ → Bool) → Bytes → Span
span_until stop [] = record { ret = false; l = []; r = [] }
span_until stop (c ∷ b) =
    if stop c then record { ret = true; l = []; r = c ∷ b } else longer c (span_until stop b)

unfoldable pub apk_blob_spn : ℕ → Bytes → Span
apk_blob_spn ctype b = span_until (λ ch. not (in_class ctype ch)) b

unfoldable pub apk_blob_cspn : ℕ → Bytes → Span
apk_blob_cspn ctype b = span_until (in_class ctype) b
