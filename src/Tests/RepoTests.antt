-- ===== src/Tests/RepoTests.antt =====
-- Variables and lines of repository lists: the results at small ones.
use apk_tools.Blob.Search.{apk_blob_contains, apk_blob_trim_end}
use apk_tools.Blob.Hash.{apk_blob_hash}
use apk_tools.Errors.{err, Error, apke_repo_variable}
use apk_tools.Repo.{index_file, is_url, resolved, omitted}
use apk_tools.Ctype.{in_class}
use apk_tools.PathBuilder.{PathBuilder}
use apk_tools.Blob.{room, is_eq, Blob, apk_blob_compare, blob}
use apk_tools.Hash.Laws.{get_hashed-init}
use apk_tools.Prelude.{
  Bytes, List, [], ◌∷◌, codes, ◌≡◌, refl, arith, some, none, replicate, ◌<◌, if◌then◌else◌, ℕ,
  Option, length, Bool, leb, ◌++◌, ◌&&◌, true, ◌+◌,
}
use apk_tools.Hash.{HashTable, apk_hash_init}
use apk_tools.Repo.Variables.{Variable, apk_variable_set, apk_variable_subst, is_variable}
use apk_tools.Repo.Variables.Laws.{
  variable, entry, replaces, apk_variable_subst-apk_variable_set, apk_variable_set-lost,
}
use apk_tools.Repo.Parse.{RepoParser, apk_repoparser_parse}
use apk_tools.Repo.Parse.Total.{apk_repoparser_parse-total}
use apk_tools.Repo.Parse.Calls.{
  calls, IsPlainUrl, ArePlain, all_urls, tag_of, tag_text, components_text, trimmed,
}
use apk_tools.Repo.Parse.Calls.Lines.{apk_repoparser_parse-calls, IsTagText}

abbrev no_variables : HashTable Variable
no_variables = apk_hash_init 1

no_variables-pos : 0 < length no_variables.buckets
unfolding apk_hash_init
no_variables-pos = omega arith

apk_variable_subst-apk_variable_set_example :
    entry (variable (apk_variable_set no_variables (codes "arch") (codes "x86") 3) (codes "arch"))
    ≡ (if is_eq (apk_blob_compare (codes "arch") (codes "arch"))
          && replaces 3 (variable no_variables (codes "arch"))
        then some (codes "x86", 3)
        else entry (variable no_variables (codes "arch")))
apk_variable_subst-apk_variable_set_example =
    apk_variable_subst-apk_variable_set no_variables (codes "arch") (codes "arch") (codes "x86") 3
      no_variables-pos (omega arith)

abbrev long_name : Bytes
long_name = replicate 256 b'a'

long_name-absent : variable no_variables long_name ≡ none
long_name-absent = get_hashed-init is_variable 1 long_name (apk_blob_hash long_name)

apk_variable_set-lost_example :
    apk_variable_subst (apk_variable_set no_variables long_name (codes "x") 1) long_name (room [] 9)
    ≡ err apke_repo_variable
apk_variable_set-lost_example =
    apk_variable_set-lost no_variables long_name (codes "x") 1 (room [] 9) no_variables-pos
      (omega arith) long_name-absent

abbrev is_lower : ℕ → Bool
is_lower c = leb 97 c

-- A callback that notes the URLs.
abbrev note_url : List Bytes → Bytes → Option Bytes → Blob → Option Error × List Bytes
note_url urls url index tag = (none, urls ++ (url ∷ []))

abbrev blank_path : PathBuilder
blank_path = record { namelen = 0; name = replicate 4096 0 }

abbrev parser : RepoParser
parser = record { variables = no_variables; line = 4 }

abbrev site : Bytes
site = codes "/a//"

site-IsPlainUrl : IsPlainUrl site
unfolding in_class is_url apk_blob_contains apk_blob_trim_end
site-IsPlainUrl = record {
  first = b'/';
  rest = codes "a//";
  url_eq = refl;
  no_comment = omega arith;
  no_tag = omega arith;
  is_located = refl;
  is_trimmed_url = refl;
  plain = (refl, (refl, (refl, (refl, tt))));
  no_variable = (omega arith, (omega arith, (omega arith, (omega arith, tt))));
  fits = omega arith;
  short = omega arith;
}

abbrev main_only : List (Bytes × ℕ)
main_only = (codes "m", 0) ∷ []

main_only-ArePlain : ArePlain (trimmed site) main_only
unfolding in_class apk_blob_trim_end
main_only-ArePlain = record {
  are_words = ((λ e. ground arith, (omega arith, tt)), tt);
  are_plain = ((refl, tt), tt);
  no_variable = (omega arith, tt);
  fits = omega arith;
  are_short = (omega arith, tt);
}

t_plain : IsTagText (some (codes "t", 0))
unfolding in_class
t_plain = (refl, tt)

apk_repoparser_parse-calls_example :
    let called =
      calls note_url
        (index_file (resolved omitted site))
        (tag_of (some (codes "t", 0)))
        (all_urls (trimmed site) main_only)
        [] in
    apk_repoparser_parse is_lower note_url blank_path parser
      (blob (tag_text (some (codes "t", 0)) ++ (site ++ components_text 0 main_only)))
      true
      []
    ≡ some (called.0, (record parser { line = parser.line + 1 }, called.1))
apk_repoparser_parse-calls_example =
    apk_repoparser_parse-calls note_url is_lower blank_path parser (some (codes "t", 0)) site 0
      main_only true [] refl t_plain site-IsPlainUrl main_only-ArePlain

apk_repoparser_parse-total_example :
    (r : Option Error × (RepoParser × List Bytes)) × (apk_repoparser_parse is_lower note_url
        blank_path parser
        (blob (codes "set a=${b}"))
        true
        []
      ≡ some r)
apk_repoparser_parse-total_example =
    apk_repoparser_parse-total is_lower note_url blank_path parser (blob (codes "set a=${b}")) true
      []
