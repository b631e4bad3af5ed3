-- ===== src/Database/Tags.antt =====
-- src/database.c: `apk_db_get_tag_id`, the table of repository tags.
pub mod Laws
use apk_tools.Blob.{Blob, blob, is_eq, null, apk_blob_compare}
use apk_tools.Prelude.{
  List, ℕ, zero, suc, Bytes, Bool, if◌then◌else◌, Option, get_or, none, drop, some, true, ◌==◌, ◌∷◌,
  leb, false, length, ◌+◌, ◌++◌, [],
}

abbrev pub apk_max_tags : ℕ
apk_max_tags = 16

abbrev pub apk_default_repository_tag : ℕ
apk_default_repository_tag = 0

pub record RepoTag : Type 0 where
  pub tag : Bytes
  pub plain_name : Bytes

-- The name that the tag is looked up by: with its '@', or without.
abbrev looked_at : Bool → RepoTag → Bytes
looked_at true t = t.tag
looked_at false t = t.plain_name

abbrev is_at : Bytes → Bool
is_at tag = get_or tag 0 0 == b'@'

-- The loop, from the index `i` on.
pub find_tag : Bool → ℕ → List RepoTag → Bytes → Option ℕ
find_tag at i [] tag = none
find_tag at i (t ∷ tags) tag =
    if is_eq (apk_blob_compare (looked_at at t) tag) then some i else find_tag at (i + 1) tags tag

abbrev pub new_tag : Bytes → RepoTag
new_tag tag =
    if is_at tag
    then record { tag = tag; plain_name = drop 1 tag }
    else record { tag = b'@' ∷ tag; plain_name = tag }

add_tag : Option ℕ → List RepoTag → Bytes → Option ℕ × List RepoTag
add_tag (some i) tags tag = (some i, tags)
add_tag none tags tag =
    if leb apk_max_tags (length tags + 1)
    then (none, tags)
    else (some (length tags + 1), tags ++ (new_tag tag ∷ []))

-- The tag's number and the table; `none` is -1, of a table that is full. Of an empty tag the code
-- reads the character behind its end, which is taken to be no '@'.
pub apk_db_get_tag_id : List RepoTag → Blob → Option ℕ × List RepoTag
unfolding add_tag find_tag
apk_db_get_tag_id tags null = (some apk_default_repository_tag, tags)
apk_db_get_tag_id tags (blob tag) = add_tag (find_tag (is_at tag) 1 tags tag) tags tag
