-- ===== src/Repo/Parse/Total.antt =====
-- Every line is parsed to an end.
use apk_tools.Blob.Subst.{apk_blob_subst}
use apk_tools.Blob.Search.{apk_blob_trim_end}
use apk_tools.Repo.{
  RepoType, index_file, get_word, resolved, omitted, keyword_type, is_url, is_keyword,
}
use apk_tools.Repo.Variables.{Variable, apk_variable_subst}
use apk_tools.Hash.{HashTable}
use apk_tools.PathBuilder.{PathBuilder, path_max}
use apk_tools.Errors.{Error, Result, err, ok, apke_repo_syntax}
use apk_tools.Blob.{Blob, blob, null, bytes, is_eq, apk_blob_compare}
use apk_tools.Prelude.{
  ℕ, Bytes, refl, Bool, Option, ◌≡◌, some, true, Returns, ◌+◌, Returns-if, none, length, ◌&&◌, ◌==◌,
  not, ◌||◌, get_or, codes,
}
use apk_tools.Blob.Subst.Total.{apk_blob_subst-total}
use apk_tools.Repo.Variables.Total.{parse_set-total}
use apk_tools.Repo.Parse.{
  apk_repoparser_parse, parse_tag, Blob, Error, PathBuilder, parse_components, parse_located,
  parse_url, HashTable, with_parser, with_variables, keyword_line, RepoParser, Variable, RepoType,
  apk_variable_subst, apk_blob_trim_end, apk_blob_subst,
}

module _ {ℓ} {S : Type ℓ} (isalpha : ℕ → Bool)
    (repository : S → Bytes → Option Bytes → Blob → Option Error × S) (pb0 : PathBuilder) where
  components-total :
      (url : Bytes) (index : Option Bytes) (tag : Blob) (s : S) (r : Result Bytes)
      → Returns (parse_components isalpha repository pb0 url index tag s (some r))
  unfolding parse_components
  components-total url index tag s (err e) = ((some e, s), λ i. some (some e, s))
  components-total url index tag s (ok components) = (_, refl)

  located-total :
      (vars : HashTable Variable) (allow : Bool) (index : Option Bytes) (tag : Blob)
      (components : Bytes) (s : S) (r : Result Bytes)
      → Returns (parse_located isalpha repository pb0 vars allow index tag components s (some r))
  unfolding parse_located
  located-total vars allow index tag components s (err e) = ((some e, s), refl)
  located-total vars allow index tag components s (ok text) =
      let url = apk_blob_trim_end text b'/' in
      let (r, g) = apk_blob_subst-total (apk_variable_subst vars) path_max components in
      let rest =
        parse_components isalpha repository pb0 url index tag s
          (apk_blob_subst (apk_variable_subst vars) path_max components) in
      Returns-if (allow && not (is_url (get_or text 0 0) url)) _ _
        ((some apke_repo_syntax, s), refl)
        (Returns-if (length components == 0) _ rest (repository s url index tag, refl)
          (rw g (components-total url index tag s r)))

  url-total :
      (vars : HashTable Variable) (allow : Bool) (type : RepoType) (tag : Blob) (p : Bytes × Bytes)
      (s : S)
      → Returns (parse_url isalpha repository pb0 vars allow type tag p s)
  unfolding parse_url
  url-total vars allow type tag (word, components) s =
      let (r, g) = apk_blob_subst-total (apk_variable_subst vars) path_max word in
      let (a, k) = located-total vars allow (index_file (resolved type word)) tag components s r in
      (a, rw g k)

  tag-total :
      (vars : HashTable Variable) (allow : Bool) (type : RepoType) (p : Bytes × Bytes) (s : S)
      → Returns (parse_tag isalpha repository pb0 vars allow type p s)
  unfolding parse_tag
  tag-total vars allow type (word, line) s =
      Returns-if _ _ _
        (Returns-if _ _ _ ((some apke_repo_syntax, s), refl)
          (url-total vars allow type (blob word) (get_word line) s))
        (url-total vars allow type null (word, line) s)

  with-total :
      (rp : RepoParser) (o : Option (Option Error × S)) → Returns o → Returns (with_parser rp o)
  unfolding with_parser
  with-total rp o (a, e) = ((a.0, (rp, a.1)), rw e refl)

  variables-total :
      (rp : RepoParser) (s : S) (o : Option (Result (HashTable Variable)))
      → Returns o
      → Returns (with_variables rp s o)
  unfolding with_variables
  variables-total rp s o (err x, e) = ((some x, (rp, s)), rw e refl)
  variables-total rp s o (ok vars, e) = ((none, (record rp { variables = vars }, s)), rw e refl)

  keyword-total :
      (rp : RepoParser) (line : Bytes) (r : Result RepoType) (s : S)
      → Returns (keyword_line isalpha repository pb0 rp line r s)
  unfolding keyword_line
  keyword-total rp line (err e) s = (_, refl)
  keyword-total rp line (ok type) s =
      Returns-if _ _ _ ((some apke_repo_syntax, (rp, s)), refl)
        (with-total rp _ (tag-total rp.variables true type (get_word line) s))

  -- `apk_repoparser_parse` returns, on every line, with any variables and any callback: the fuel of
  -- its loops is enough.
  pub apk_repoparser_parse-total :
      (rp : RepoParser) (line : Blob) (allow : Bool) (s : S)
      → (r : Option Error × (RepoParser × S)) × (apk_repoparser_parse isalpha repository pb0 rp line
            allow s
          ≡ some r)
  unfolding apk_repoparser_parse
  apk_repoparser_parse-total rp0 line allow s =
      let rp = record rp0 { line = rp0.line + 1 } in
      let (word, rest) = get_word (bytes line) in
      Returns-if (length (bytes line) == 0 || get_or (bytes line) 0 0 == b'#')
        (some (none, (rp, s))) _ ((none, (rp, s)), refl)
        (Returns-if (length word == 0) (some (some apke_repo_syntax, (rp, s))) _
          ((some apke_repo_syntax, (rp, s)), refl)
          (Returns-if (not (allow && is_keyword word)) _ _
            (with-total rp _ (tag-total rp.variables allow omitted (word, rest) s))
            (Returns-if (is_eq (apk_blob_compare word (codes "set"))) _ _
              (variables-total rp s _ (parse_set-total isalpha rp.variables rest))
              (keyword-total rp rest (keyword_type word) s))))
