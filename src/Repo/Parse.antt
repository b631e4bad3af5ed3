-- ===== src/Repo/Parse.antt =====
-- src/repoparser.c: `apk_repoparser_parse`.
pub mod Calls
pub mod Total
use apk_tools.Blob.Subst.{apk_blob_subst}
use apk_tools.Blob.Search.{apk_blob_trim_end, apk_blob_foreach_word}
use apk_tools.PathBuilder.{
  PathBuilder, apk_pathbuilder_pushb, apk_pathbuilder_setb, apk_pathbuilder_get,
  apk_pathbuilder_pop, path_max,
}
use apk_tools.Prelude.{
  ℕ, Bytes, Bool, codes, ◌==◌, ◌&&◌, ◌||◌, Option, some, List, ◌+◌, none, ◌∷◌, if◌then◌else◌,
  get_or, length, not, true, [],
}
use apk_tools.Repo.{
  get_word, RepoType, index_file, resolved, is_url, is_keyword, omitted, keyword_type,
}
use apk_tools.Hash.{HashTable, apk_hash_init}
use apk_tools.Blob.{Blob, blob, null, bytes, is_eq, apk_blob_compare}
use apk_tools.Errors.{Error, Result, err, ok, apke_repo_syntax}
use apk_tools.Repo.Variables.{Variable, apk_variable_subst, apk_repoparser_parse_set}

-- `out`, `ops` and `file` are not used by what is modelled but for the callback, an argument below.
pub record RepoParser : Type 0 where
  pub variables : HashTable Variable
  pub line : ℕ

pub apk_repoparser_init : RepoParser
apk_repoparser_init = record { variables = apk_hash_init 10; line = 0 }

pub apk_repoparser_set_file : RepoParser → RepoParser
apk_repoparser_set_file rp = record rp { line = 0 }

-- The first result where it is an error, else the second.
pub unless_failed {ℓ} : {S : Type ℓ} → Option Error × S → Option Error × S → Option Error × S
unless_failed (some e, s) rest = (some e, s)
unless_failed (none, s) rest = rest

-- The parser is as it was behind a line that defines nothing.
with_parser {ℓ} :
    {S : Type ℓ} → RepoParser → Option (Option Error × S) → Option (Option Error × (RepoParser × S))
with_parser rp none = none
with_parser rp (some (r, s)) = some (r, (rp, s))

with_variables {ℓ} :
    {S : Type ℓ}
    → RepoParser
    → S
    → Option (Result (HashTable Variable))
    → Option (Option Error × (RepoParser × S))
with_variables rp s none = none
with_variables rp s (some (err e)) = some (some e, (rp, s))
with_variables rp s (some (ok vars)) = some (none, (record rp { variables = vars }, s))

-- The C library's `isalpha`; the callback `ops->repository`, with a state of its own, where `none`
-- is the return value 0; and the array of a path builder, which is not initialised.
module _ {ℓ} {S : Type ℓ} (isalpha : ℕ → Bool)
    (repository : S → Bytes → Option Bytes → Blob → Option Error × S) (pb0 : PathBuilder) where
  -- The loop over the components.
  pub each_component : PathBuilder → Option Bytes → Blob → List Bytes → S → Option Error × S
  unfolding unless_failed
  each_component pb index tag [] s = (none, s)
  each_component pb index tag (component ∷ components) s =
      let pushed = apk_pathbuilder_pushb pb component in
      let called = repository s (apk_pathbuilder_get pushed.0) index tag in
      unless_failed called
        (each_component (apk_pathbuilder_pop pushed.0 pushed.1) index tag components called.1)

  -- What is behind the substitution in the components.
  parse_components :
      Bytes → Option Bytes → Blob → S → Option (Result Bytes) → Option (Option Error × S)
  unfolding each_component
  parse_components url index tag s none = none
  parse_components url index tag s (some (err e)) = some (some e, s)
  parse_components url index tag s (some (ok components)) = some (
      each_component (apk_pathbuilder_setb pb0 url).0 index tag (apk_blob_foreach_word components)
        s)

  -- What is behind the substitution in the URL.
  pub parse_located :
      HashTable Variable
      → Bool
      → Option Bytes
      → Blob
      → Bytes
      → S
      → Option (Result Bytes)
      → Option (Option Error × S)
  unfolding parse_components
  parse_located vars allow index tag components s none = none
  parse_located vars allow index tag components s (some (err e)) = some (some e, s)
  parse_located vars allow index tag components s (some (ok text)) =
      let url = apk_blob_trim_end text b'/' in
      if allow && not (is_url (get_or text 0 0) url)
      then some (some apke_repo_syntax, s)
      else if length components == 0
      then some (repository s url index tag)
      else parse_components url index tag s
          (apk_blob_subst (apk_variable_subst vars) path_max components)

  -- Behind the tag: the URL, the components, and what they stand for.
  pub parse_url :
      HashTable Variable → Bool → RepoType → Blob → Bytes × Bytes → S → Option (Option Error × S)
  unfolding parse_located
  parse_url vars allow type tag (word, components) s =
      parse_located vars allow (index_file (resolved type word)) tag components s
        (apk_blob_subst (apk_variable_subst vars) path_max word)

  -- Behind the keyword: the tag, if there is one.
  pub parse_tag :
      HashTable Variable → Bool → RepoType → Bytes × Bytes → S → Option (Option Error × S)
  unfolding parse_url
  parse_tag vars allow type (word, line) s =
      let next = get_word line in
      if get_or word 0 0 == b'@'
      then (if length next.0 == 0
          then some (some apke_repo_syntax, s)
          else parse_url vars allow type (blob word) next s)
      else parse_url vars allow type null (word, line) s

  keyword_line : RepoParser → Bytes → Result RepoType → S → Option (Option Error × (RepoParser × S))
  unfolding parse_tag
  keyword_line rp line (err e) s = some (some e, (rp, s))
  keyword_line rp line (ok type) s =
      let next = get_word line in
      if length next.0 == 0
      then some (some apke_repo_syntax, (rp, s))
      else with_parser rp (parse_tag rp.variables true type next s)

  -- The return value, the parser and the callback's state; `none` is out of fuel.
  pub apk_repoparser_parse : RepoParser → Blob → Bool → S → Option (Option Error × (RepoParser × S))
  unfolding keyword_line
  apk_repoparser_parse rp0 line allow s =
      let rp = record rp0 { line = rp0.line + 1 } in
      let (word, rest) = get_word (bytes line) in
      if length (bytes line) == 0 || get_or (bytes line) 0 0 == b'#'
      then some (none, (rp, s))
      else if length word == 0
      then some (some apke_repo_syntax, (rp, s))
      else if not (allow && is_keyword word)
      then with_parser rp (parse_tag rp.variables allow omitted (word, rest) s)
      else if is_eq (apk_blob_compare word (codes "set"))
      then with_variables rp s (apk_repoparser_parse_set isalpha rp.variables rest)
      else keyword_line rp rest (keyword_type word) s
