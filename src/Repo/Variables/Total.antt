-- ===== src/Repo/Variables/Total.antt =====
-- The definition of a variable ends.
use apk_tools.Blob.Subst.{apk_blob_subst}
use apk_tools.Blob.Search.{apk_blob_split}
use apk_tools.PathBuilder.{path_max}
use apk_tools.Blob.Subst.Total.{apk_blob_subst-total}
use apk_tools.Blob.{is_eq, apk_blob_compare, apk_blob_starts_with}
use apk_tools.Hash.{HashTable}
use apk_tools.Errors.{Result, err, ok, apke_repo_variable, apke_repo_syntax}
use apk_tools.Repo.Variables.{
  set_options, apk_repoparser_parse_set, apk_repoparser_parse_set, set_definition, set_line,
  set_value, HashTable, Variable, apk_varf_overwrite, apk_variable_subst, path_max,
  apk_variable_set, apk_blob_split, apk_blob_subst,
}
use apk_tools.Ctype.{
  apk_blob_cspn, span_until, apk_blob_spn, in_class, apk_ctype_repository_separator,
  apk_ctype_variable_name,
}
use apk_tools.Repo.{get_word, apk_blob_cspn, Result}
use apk_tools.Prelude.{
  ℕ, Bytes, Bool, length, ◌≤◌, arith, ◌∷◌, ap, not, ◌<◌, ◌≡◌, some, Option, suc, ◌+◌, Bool-cases,
  codes, ◌==◌, inl, ==_iff, bit_and, inr, zero, [], refl, Returns, Returns-if, none, ◌||◌, get_or,
}
use apk_tools.Ctype.Spans.{span_rest}
use apk_tools.Repo.{get_word}

minus-word : (line : Bytes) → length (get_word (b'-' ∷ line)).1 ≤ length line
unfolding get_word apk_blob_cspn apk_blob_spn span_until in_class
minus-word line =
    let r = (span_until (in_class apk_ctype_repository_separator) line).r in
    omega (
      arith,
      span_rest (in_class apk_ctype_repository_separator) line,
      span_rest (λ ch. not (in_class apk_ctype_repository_separator ch)) r,
    )

set_options-total :
    (fuel : ℕ) (line : Bytes) (flags : ℕ)
    → length line < fuel
    → (r : Result (Bytes × ℕ)) × (set_options fuel line flags ≡ some r)
unfolding set_options
set_options-total zero line flags h = absurd (omega arith)
set_options-total (suc fuel) [] flags h = (ok ([], flags), refl)
set_options-total (suc fuel) (c ∷ line) flags h = elim (Bool-cases (c == b'-')) [
  | inl s ↦
      let e = (==_iff c b'-').0 s in
      let word = (get_word (c ∷ line)).0 in
      let (r, g) =
        set_options-total fuel (get_word (c ∷ line)).1 (bit_and flags 0xfe)
          (omega (arith, minus-word line, ap (λ x. length (get_word (x ∷ line)).1) e)) in
      elim (Bool-cases (is_eq (apk_blob_compare word (codes "-default")))) [
        | inl d ↦ (r, rw (s, d) g)
        | inr d ↦ (err apke_repo_syntax, rw (s, d) refl)
      ]
  | inr n ↦ (ok (c ∷ line, flags), rw n refl)
]

module _ (isalpha : ℕ → Bool) where
  value-total :
      (vars : HashTable Variable) (key : Bytes) (flags : ℕ) (r : Result Bytes)
      → Returns (set_value isalpha vars key flags (some r))
  unfolding set_value
  value-total vars key flags (err e) = (err e, refl)
  value-total vars key flags (ok value) = (ok (apk_variable_set vars key value flags), refl)

  definition-total :
      (vars : HashTable Variable) (line : Bytes) (flags : ℕ) (o : Option (Bytes × Bytes))
      → Returns (set_definition isalpha vars line flags o)
  unfolding set_definition
  definition-total vars line flags none = (err apke_repo_variable, refl)
  definition-total vars line flags (some (key, value)) =
      let (r, g) = apk_blob_subst-total (apk_variable_subst vars) path_max value in
      let bad =
        apk_blob_starts_with key (codes "APK_")
        || not (isalpha (get_or line 0 0))
        || (apk_blob_spn apk_ctype_variable_name key).ret in
      let rest =
        set_value isalpha vars key flags
          (apk_blob_subst (apk_variable_subst vars) path_max value) in
      Returns-if bad _ rest (err apke_repo_variable, refl) (rw g (value-total vars key flags r))

  line-total :
      (vars : HashTable Variable) (r : Result (Bytes × ℕ))
      → Returns (set_line isalpha vars (some r))
  unfolding set_line
  line-total vars (err e) = (err e, refl)
  line-total vars (ok (line, flags)) =
      definition-total vars line flags (apk_blob_split line (codes "="))

  pub parse_set-total :
      (vars : HashTable Variable) (line : Bytes)
      → Returns (apk_repoparser_parse_set isalpha vars line)
  unfolding apk_repoparser_parse_set
  parse_set-total vars line =
      let (r, g) = set_options-total (length line + 1) line apk_varf_overwrite (omega arith) in
      rw g (line-total vars r)
