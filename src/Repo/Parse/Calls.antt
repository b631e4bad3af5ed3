-- ===== src/Repo/Parse/Calls.antt =====
-- The calls that a line makes.
pub mod Lines
use apk_tools.Blob.Search.{apk_blob_trim_end}
use apk_tools.Blob.Search.Laws.{Without}
use apk_tools.Blob.Search.Tokens.{spaces, spaced, words, AreWords}
use apk_tools.Ctype.Spans.{apk_blob_cspn-whole, apk_blob_cspn-run, apk_blob_spn-run}
use apk_tools.Repo.{get_word, is_url}
use apk_tools.Ctype.{in_class, apk_ctype_repository_separator, apk_blob_spn, span_until}
use apk_tools.PathBuilder.{PathBuilder, apk_pathbuilder_get, path_max, apk_pathbuilder_pop}
use apk_tools.Prelude.{
  refl, ℕ, Bytes, Bool, Option, List, none, ◌∷◌, All, some, length, [], ◌+◌, ◌<◌, ◌≡◌, inl, arith,
  ap, inr, ◌∙◌, false, true, ◌++◌, suc, zero, ◌≢◌, ◌≤◌,
}
use apk_tools.Blob.{Blob, null, blob}
use apk_tools.Errors.{Error}
use apk_tools.PathBuilder.Laws.{
  joined, IsPath, apk_pathbuilder_pop-apk_pathbuilder_pushb, length-get, pop-IsPath,
}
use apk_tools.Repo.Parse.{each_component, PathBuilder, get_word, unless_failed, apk_blob_trim_end}

module _ {ℓ} {S : Type ℓ} (repository : S → Bytes → Option Bytes → Blob → Option Error × S) where
  -- One call for each URL, up to the first that fails.
  pub calls : Option Bytes → Blob → List Bytes → S → Option Error × S
  calls index tag [] s = (none, s)
  calls index tag (url ∷ urls) s =
      let called = repository s url index tag in
      unless_failed called (calls index tag urls called.1)

-- The URL with each component behind it.
pub targets : Bytes → List Bytes → List Bytes
targets url [] = []
targets url (c ∷ cs) = joined url c ∷ targets url cs

abbrev pub AreShort : Bytes → List Bytes → Type 0
AreShort url cs = All (λ c. length url + length c + 2 < path_max) cs

module _ {ℓ} {S : Type ℓ} (repository : S → Bytes → Option Bytes → Blob → Option Error × S)
    (isalpha : ℕ → Bool) (pb0 : PathBuilder) where
  each_component-calls :
      (pb : PathBuilder) (url : Bytes) (index : Option Bytes) (tag : Blob) (cs : List Bytes) (s : S)
      → IsPath pb
      → apk_pathbuilder_get pb ≡ url
      → AreShort url cs
      → each_component isalpha repository pb0 pb index tag cs s
        ≡ calls repository index tag (targets url cs) s
  unfolding each_component calls targets
  each_component-calls pb url index tag [] s p e h = refl
  each_component-calls pb url index tag (c ∷ cs) s p e (h, hs) =
      elim (apk_pathbuilder_pop-apk_pathbuilder_pushb pb c p) [
        | inl (long, f) ↦ absurd (omega (arith, length-get pb p, ap length e))
        | inr (pb', f, path, get, back) ↦
            let next =
              each_component-calls (apk_pathbuilder_pop pb' (some pb.namelen)) url index tag cs
                (repository s (joined url c) index tag).1 (pop-IsPath pb' pb.namelen path p.1)
                (back ∙ e) hs in
            rw (f, get, e) (ap (unless_failed _) next)
      ]

-- No character of a word separates words or is a space.
abbrev pub Plain : Bytes → Type 0
Plain b = All (λ c. in_class apk_ctype_repository_separator c ≡ false) b

space-separates : in_class apk_ctype_repository_separator b' ' ≡ true
unfolding in_class
space-separates = refl

spaces-All : (n : ℕ) → All (λ c. in_class apk_ctype_repository_separator c ≡ true) (spaces n)
spaces-All zero = tt
spaces-All (suc n) = (space-separates, spaces-All n)

get_word-spaces :
    (w r : Bytes) (c n : ℕ)
    → Plain w
    → in_class apk_ctype_repository_separator c ≡ false
    → get_word (w ++ (spaces (suc n) ++ (c ∷ r))) ≡ (w, c ∷ r)
unfolding get_word
get_word-spaces w r c n h k =
    rw
      (
        apk_blob_cspn-run apk_ctype_repository_separator w (spaces n ++ (c ∷ r)) b' ' h
            space-separates,
        apk_blob_spn-run apk_ctype_repository_separator (spaces (suc n)) r c (spaces-All (suc n)) k,
      )
      refl

get_word-whole : (w : Bytes) → Plain w → get_word w ≡ (w, [])
unfolding get_word apk_blob_spn span_until
get_word-whole w h = rw (apk_blob_cspn-whole apk_ctype_repository_separator w h) refl

-- The line: the tag, the URL, and the components with any spaces between.
abbrev pub tag_text : Option (Bytes × ℕ) → Bytes
tag_text none = []
tag_text (some (name, n)) = b'@' ∷ (name ++ spaces (suc n))

abbrev pub tag_of : Option (Bytes × ℕ) → Blob
tag_of none = null
tag_of (some (name, n)) = blob (b'@' ∷ name)

abbrev pub components_text : ℕ → List (Bytes × ℕ) → Bytes
components_text k [] = []
components_text k (c ∷ cs) = spaces (suc k) ++ spaced (c ∷ cs)

abbrev pub all_urls : Bytes → List (Bytes × ℕ) → List Bytes
all_urls url [] = url ∷ []
all_urls url (c ∷ cs) = targets url (words (c ∷ cs))

-- The URL without the '/' at its end, of which it may have several.
abbrev pub trimmed : Bytes → Bytes
trimmed url = apk_blob_trim_end url b'/'

-- A URL that has no variable: it begins with neither '#' nor '@', is one for `is_url` with and
-- without the '/' at its end, and fits a path.
pub record IsPlainUrl (url : Bytes) : Type 0 where
  pub first : ℕ
  pub rest : Bytes
  pub url_eq : url ≡ first ∷ rest
  pub no_comment : first ≢ b'#'
  pub no_tag : first ≢ b'@'
  pub is_located : is_url first url ≡ true
  pub is_trimmed_url : is_url first (trimmed url) ≡ true
  pub plain : Plain url
  pub no_variable : Without b'$' url
  pub fits : length url + 1 ≤ path_max
  pub short : length (trimmed url) + 2 < path_max

-- Components that stand for themselves and fit behind the URL.
pub record ArePlain (url : Bytes) (cs : List (Bytes × ℕ)) : Type 0 where
  pub are_words : AreWords cs
  pub are_plain : All (λ c. Plain c.0) cs
  pub no_variable : Without b'$' (spaced cs)
  pub fits : length (spaced cs) + 1 ≤ path_max
  pub are_short : AreShort url (words cs)
