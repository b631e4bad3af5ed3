-- ===== src/Repo/Parse/Calls/Lines.antt =====
-- A line of plain text, from its tag to its components.
use apk_tools.Ctype.{in_class, apk_ctype_repository_separator}
use apk_tools.Blob.Search.{apk_blob_foreach_word}
use apk_tools.PathBuilder.Laws.{setb-Pushed}
use apk_tools.Blob.Subst.Expands.{apk_blob_subst-plain}
use apk_tools.Repo.Variables.{Variable, apk_variable_subst}
use apk_tools.Hash.{HashTable}
use apk_tools.Repo.{is_url, get_word, RepoType, index_file, resolved, omitted, is_keyword}
use apk_tools.PathBuilder.{PathBuilder, path_max}
use apk_tools.Blob.Search.Tokens.{AreWords, spaced, spaces, words, apk_blob_foreach_word_lem}
use apk_tools.Repo.Parse.{
  unless_failed, PathBuilder, parse_url, is_url, parse_located, get_word, parse_components,
  HashTable, Variable, apk_variable_subst, parse_tag, apk_repoparser_parse, with_parser,
  apk_blob_foreach_word, RepoParser,
}
use apk_tools.Prelude.{
  ℕ, Bytes, Bool, refl, List, Option, none, get_or, All, ◌≡◌, ◌∷◌, some, length, true, ◌++◌, ap,
  ◌==◌, false, append-nil, arith, [], suc, sym, ◌&&◌, append_assoc, ◌+◌, subst, ◌∙◌,
}
use apk_tools.Blob.{Blob, blob, null}
use apk_tools.Errors.{Error}
use apk_tools.Repo.Parse.Calls.{
  calls, each_component-calls, unless_failed, IsPlainUrl, AreWords, Plain, components_text,
  get_word-whole, get_word-spaces, ArePlain, all_urls, trimmed, tag_text, tag_of, in_class,
}

unless-last {ℓ} : {S : Type ℓ} (p : Option Error × S) → unless_failed p (none, p.1) ≡ p
unfolding unless_failed
unless-last (none, s) = λ i. (none, s)
unless-last (some e, s) = λ i. (some e, s)

first-located :
    (url : Bytes) (u : IsPlainUrl url)
    → (get_or url 0 0 ≡ u.first)
      × (is_url (get_or url 0 0) url ≡ true)
      × (is_url (get_or url 0 0) (trimmed url) ≡ true)
first-located url u =
    let e : get_or url 0 0 ≡ u.first = ap (λ x. get_or x 0 0) u.url_eq in
    (e, rw e u.is_located, rw e u.is_trimmed_url)

and_false : (b : Bool) → (b && false) ≡ false
and_false true = refl
and_false false = refl

spaced-pos :
    (c : Bytes × ℕ) (cs : List (Bytes × ℕ))
    → AreWords (c ∷ cs)
    → (length (spaced (c ∷ cs)) == 0) ≡ false
spaced-pos ([], n) cs ((ne, h), t) = absurd (ne refl)
spaced-pos (x ∷ w, n) [] h = ground arith
spaced-pos (x ∷ w, n) (d ∷ cs) h = ground arith

module _ {ℓ} {S : Type ℓ} (repository : S → Bytes → Option Bytes → Blob → Option Error × S)
    (isalpha : ℕ → Bool) (pb0 : PathBuilder) where
  parse_url-calls :
      (vars : HashTable Variable) (allow : Bool) (type : RepoType) (tag : Blob) (url : Bytes)
      (cs : List (Bytes × ℕ)) (s : S)
      → length pb0.name ≡ path_max
      → IsPlainUrl url
      → ArePlain (trimmed url) cs
      → parse_url isalpha repository pb0 vars allow type tag (url, spaced cs) s
        ≡ some (calls repository (index_file (resolved type url)) tag (all_urls (trimmed url) cs) s)
  unfolding parse_url parse_located parse_components calls
  parse_url-calls vars allow type tag url [] s full u cp =
      let (e, l, l') = first-located url u in
      rw (apk_blob_subst-plain (apk_variable_subst vars) path_max url u.no_variable u.fits, l')
        (rw (and_false allow) (ap some (sym (unless-last _))))
  parse_url-calls vars allow type tag url (c ∷ cs) s full u cp =
      let (e, l, l') = first-located url u in
      let (path, get) = setb-Pushed pb0 (trimmed url) full u.short in
      let found : apk_blob_foreach_word (spaced (c ∷ cs)) ≡ words (c ∷ cs) =
        apk_blob_foreach_word_lem 0 (c ∷ cs) cp.are_words in
      let text = spaced (c ∷ cs) in
      rw
        (
          apk_blob_subst-plain (apk_variable_subst vars) path_max url u.no_variable u.fits,
          l',
          and_false allow,
          spaced-pos c cs cp.are_words,
          apk_blob_subst-plain (apk_variable_subst vars) path_max text cp.no_variable cp.fits,
          found,
        )
        (ap some (
          each_component-calls repository isalpha pb0 _ (trimmed url)
            (index_file (resolved type url)) tag (words (c ∷ cs)) s path get cp.are_short))

get_word-line :
    (url : Bytes) (k : ℕ) (cs : List (Bytes × ℕ))
    → Plain url
    → AreWords cs
    → All (λ c. Plain c.0) cs
    → get_word (url ++ components_text k cs) ≡ (url, spaced cs)
get_word-line url k [] h w p = rw (append-nil url) (get_word-whole url h)
get_word-line url k (([], n) ∷ cs) h ((ne, w), ws) p = absurd (ne refl)
get_word-line url k ((x ∷ w, n) ∷ []) h ws ((px, pw), p) =
    get_word-spaces url (w ++ spaces n) x k h px
get_word-line url k ((x ∷ w, n) ∷ d ∷ cs) h ws ((px, pw), p) =
    get_word-spaces url (w ++ (spaces (suc n) ++ spaced (d ∷ cs))) x k h px

url-pos : (url : Bytes) → IsPlainUrl url → (length url == 0) ≡ false
url-pos url u = let e = ap length u.url_eq in ground arith

url-keyword : (url : Bytes) → IsPlainUrl url → is_keyword url ≡ false
unfolding is_keyword
url-keyword url u = let (e, l, l') = first-located url u in rw l (ground arith)

at-keyword : (name : Bytes) → is_keyword (b'@' ∷ name) ≡ false
unfolding is_keyword
at-keyword name = refl

line-starts :
    (url r : Bytes)
    → IsPlainUrl url
    → ((length (url ++ r) == 0) ≡ false) × ((get_or (url ++ r) 0 0 == b'#') ≡ false)
line-starts url r u = let ne = u.no_comment in rw u.url_eq (ground arith, ground arith)

-- The tag's text has no separator.
abbrev pub IsTagText : Option (Bytes × ℕ) → Type 0
IsTagText none = Unit
IsTagText (some (name, n)) = Plain name

at-Plain : in_class apk_ctype_repository_separator b'@' ≡ false
unfolding in_class
at-Plain = refl

-- What the word behind a tag is.
get_word-tag :
    (name url : Bytes) (n k : ℕ) (cs : List (Bytes × ℕ))
    → Plain name
    → IsPlainUrl url
    → get_word (tag_text (some (name, n)) ++ (url ++ components_text k cs))
      ≡ (b'@' ∷ name, url ++ components_text k cs)
get_word-tag name url n k cs h u =
    let p : Plain (u.first ∷ u.rest) = subst (λ x. Plain x) u.url_eq u.plain in
    rw (u.url_eq, append_assoc name (spaces (suc n)) ((u.first ∷ u.rest) ++ components_text k cs))
      (get_word-spaces (b'@' ∷ name) (u.rest ++ components_text k cs) u.first n (at-Plain, h) p.0)

module _ {ℓ} {S : Type ℓ} (repository : S → Bytes → Option Bytes → Blob → Option Error × S)
    (isalpha : ℕ → Bool) (pb0 : PathBuilder) where
  parse_tag-none :
      (vars : HashTable Variable) (allow : Bool) (url : Bytes) (cs : List (Bytes × ℕ)) (s : S)
      → length pb0.name ≡ path_max
      → IsPlainUrl url
      → ArePlain (trimmed url) cs
      → parse_tag isalpha repository pb0 vars allow omitted (url, spaced cs) s
        ≡ some (
            calls repository (index_file (resolved omitted url)) null (all_urls (trimmed url) cs) s)
  unfolding parse_tag
  parse_tag-none vars allow url cs s full u cp =
      let (e, l, l') = first-located url u in
      let other : (get_or url 0 0 == b'@') ≡ false = rw e (let ne = u.no_tag in ground arith) in
      rw other (parse_url-calls repository isalpha pb0 vars allow omitted null url cs s full u cp)

  parse_tag-some :
      (vars : HashTable Variable) (allow : Bool) (name url : Bytes) (k : ℕ) (cs : List (Bytes × ℕ))
      (s : S)
      → length pb0.name ≡ path_max
      → IsPlainUrl url
      → ArePlain (trimmed url) cs
      → parse_tag isalpha repository pb0 vars allow omitted
          (b'@' ∷ name, url ++ components_text k cs)
          s
        ≡ some (
            calls repository
              (index_file (resolved omitted url))
              (blob (b'@' ∷ name))
              (all_urls (trimmed url) cs)
              s)
  unfolding parse_tag
  parse_tag-some vars allow name url k cs s full u cp =
      rw (get_word-line url k cs u.plain cp.are_words cp.are_plain, url-pos url u)
        (parse_url-calls repository isalpha pb0 vars allow omitted (blob (b'@' ∷ name)) url cs s
          full u cp)

  parse-step :
      (rp : RepoParser) (line word rest : Bytes) (allow : Bool) (s : S)
      → (length line == 0) ≡ false
      → (get_or line 0 0 == b'#') ≡ false
      → get_word line ≡ (word, rest)
      → (length word == 0) ≡ false
      → is_keyword word ≡ false
      → apk_repoparser_parse isalpha repository pb0 rp (blob line) allow s
        ≡ with_parser
            (record rp { line = rp.line + 1 })
            (parse_tag isalpha repository pb0 rp.variables allow omitted (word, rest) s)
  unfolding apk_repoparser_parse
  parse-step rp line word rest allow s a b c d e = rw (a, b, c, d, e, and_false allow) refl

  -- A line without a keyword: an optional tag, a URL and any number of components, with any spaces
  -- between, and no separator inside; URL and components have no '$'. The URL begins with neither '#'
  -- nor '@', and `is_url` takes it for a URL, also without the '/' at its end. The callback is called
  -- with the URL without the '/' at its end, or with that, a '/' and each component in order (the
  -- component alone where nothing is left of the URL), up to the first call that fails; with the
  -- index file that the ending of the URL as written stands for, and with the tag. Its error is the
  -- result, and the variables stay. Keywords may be allowed or not, and each path fits PATH_MAX.
  pub apk_repoparser_parse-calls :
      (rp : RepoParser) (tag : Option (Bytes × ℕ)) (url : Bytes) (k : ℕ) (cs : List (Bytes × ℕ))
      (allow : Bool) (s : S)
      → length pb0.name ≡ path_max
      → IsTagText tag
      → IsPlainUrl url
      → ArePlain (trimmed url) cs
      → let called =
          calls repository
            (index_file (resolved omitted url))
            (tag_of tag)
            (all_urls (trimmed url) cs)
            s in
        apk_repoparser_parse isalpha repository pb0 rp
          (blob (tag_text tag ++ (url ++ components_text k cs)))
          allow
          s
        ≡ some (called.0, (record rp { line = rp.line + 1 }, called.1))
  unfolding apk_repoparser_parse with_parser
  apk_repoparser_parse-calls rp none url k cs allow s full t u cp =
      let (e, l, l') = first-located url u in
      let (a, b) = line-starts url (components_text k cs) u in
      parse-step rp (url ++ components_text k cs) url (spaced cs) allow s a b
        (get_word-line url k cs u.plain cp.are_words cp.are_plain) (url-pos url u)
        (url-keyword url u)
      ∙ ap (with_parser _) (parse_tag-none rp.variables allow url cs s full u cp)
  apk_repoparser_parse-calls rp (some (name, n)) url k cs allow s full t u cp =
      parse-step rp (tag_text (some (name, n)) ++ (url ++ components_text k cs)) (b'@' ∷ name)
        (url ++ components_text k cs) allow s (ground arith) refl (get_word-tag name url n k cs t u)
        (ground arith) (at-keyword name)
      ∙ ap (with_parser _) (parse_tag-some rp.variables allow name url k cs s full u cp)
