-- ===== src/Repo.antt =====
-- src/repoparser.c, src/apk_repoparser.h: the lines of repository lists. What a line is split into
-- stands here; variables and the parser are in the child modules.
pub mod Variables
pub mod Parse
use apk_tools.Prelude.{
  ℕ, Bytes, Bool, codes, ◌==◌, ◌&&◌, ◌||◌, Option, if◌then◌else◌, false, get_or, some, ltb, not,
  none,
}
use apk_tools.Blob.{is_eq, apk_blob_compare, apk_blob_ends_with}
use apk_tools.Blob.Search.{apk_blob_contains}
use apk_tools.Ctype.{apk_blob_spn, apk_blob_cspn, apk_ctype_repository_separator}
use apk_tools.Errors.{Result, ok, err, apke_repo_keyword}

-- APK_REPOTYPE_*.
pub data RepoType : Type 0 where
  omitted ndx v2 v3 : RepoType

-- The word, and the line behind it and its separators; the word is empty where the result is false.
unfoldable pub get_word : Bytes → Bytes × Bytes
get_word line =
    let word = apk_blob_cspn apk_ctype_repository_separator line in
    let rest = apk_blob_spn apk_ctype_repository_separator word.r in (word.l, rest.r)

-- The offset is not 0, and not -1.
abbrev is_inside : Option ℕ → Bool
is_inside none = false
is_inside (some i) = ltb 0 i

-- The character at `word.ptr`, which stands there also where the word is empty, and the word.
unfoldable pub is_url : ℕ → Bytes → Bool
is_url first word = first == b'/' || is_inside (apk_blob_contains word (codes "://"))

unfoldable pub is_keyword : Bytes → Bool
unfolding is_url
is_keyword word = if get_or word 0 0 == b'@' then false else not (is_url (get_or word 0 0) word)

pub keyword_type : Bytes → Result RepoType
keyword_type word =
    if is_eq (apk_blob_compare word (codes "ndx"))
    then ok ndx
    else if is_eq (apk_blob_compare word (codes "v2"))
    then ok v2
    else if is_eq (apk_blob_compare word (codes "v3"))
    then ok v3
    else err apke_repo_keyword

-- The type of a line that names none.
unfoldable pub resolved : RepoType → Bytes → RepoType
resolved omitted word =
    if apk_blob_ends_with word (codes ".adb") || apk_blob_ends_with word (codes ".tar.gz")
    then ndx
    else v2
resolved type word = type

-- `index_file`, which is NULL for an index given by its own URL.
unfoldable pub index_file : RepoType → Option Bytes
index_file v2 = some (codes "APKINDEX.tar.gz")
index_file v3 = some (codes "Packages.adb")
index_file _ = none
