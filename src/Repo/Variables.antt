-- ===== src/Repo/Variables.antt =====
-- src/repoparser.c: the table of variables, and their definition by a line `set`.
pub mod Laws
pub mod Total
use apk_tools.Prelude.{
  ℕ, Bytes, Bool, codes, ◌==◌, ◌&&◌, ◌||◌, take, List, not, Option, ◌∷◌, bit_and, length, some,
  none, ◌%◌, suc, ◌+◌, if◌then◌else◌, get_or, [], zero,
}
use apk_tools.Blob.{is_eq, apk_blob_compare, Buffer, apk_blob_push_blob, apk_blob_starts_with}
use apk_tools.Blob.Search.{apk_blob_split}
use apk_tools.Blob.Subst.{apk_blob_subst}
use apk_tools.Blob.Hash.{apk_blob_hash}
use apk_tools.Hash.{
  HashTable, apk_hash_init, apk_hash_get_hashed, apk_hash_insert_hashed, change_at, bucket_of,
}
use apk_tools.Errors.{Result, ok, err, apke_repo_variable, apke_repo_syntax}
use apk_tools.Ctype.{apk_blob_spn, apk_ctype_variable_name}
use apk_tools.PathBuilder.{path_max}
use apk_tools.Repo.{get_word}

abbrev pub apk_varf_overwrite : ℕ
apk_varf_overwrite = 1

abbrev pub apk_varf_readonly : ℕ
apk_varf_readonly = 2

pub record Variable : Type 0 where
  pub value : Bytes
  pub flags : ℕ
  pub keylen : ℕ
  pub key : Bytes

abbrev variable_hash_get_key : Variable → Bytes
variable_hash_get_key var = take var.keylen var.key

abbrev pub is_variable : Variable → Bytes → Bool
is_variable var key = is_eq (apk_blob_compare key (variable_hash_get_key var))

-- The item that a lookup in the bucket finds, changed in its place.
pub change_item : (Variable → Variable) → Bytes → List Variable → List Variable
change_item f key [] = []
change_item f key (var ∷ items) =
    if is_variable var key then f var ∷ items else var ∷ change_item f key items

abbrev has_flag : ℕ → ℕ → Bool
has_flag flags flag = not (bit_and flags flag == 0)

-- A change of the flags and the value of the variable that was found, or a new one; `keylen` has 8
-- bits.
pub set_found : HashTable Variable → Bytes → Bytes → ℕ → Option Variable → HashTable Variable
unfolding change_item
set_found vars key value flags none =
    let var : Variable = record {
      value = value;
      flags = flags;
      keylen = length key % 256;
      key = key;
    } in
    apk_hash_insert_hashed vars var (apk_blob_hash key)
set_found vars key value flags (some var) =
    if not (has_flag flags apk_varf_overwrite)
    then vars
    else if has_flag var.flags apk_varf_readonly
    then vars
    else record vars {
      buckets =
          change_at (change_item (λ v. record v { value = value; flags = flags }) key)
            (bucket_of vars (apk_blob_hash key)) vars.buckets;
    }

pub apk_variable_set : HashTable Variable → Bytes → Bytes → ℕ → HashTable Variable
unfolding set_found
apk_variable_set vars key value flags =
    set_found vars key value flags (apk_hash_get_hashed is_variable vars key (apk_blob_hash key))

push_found : Buffer → Option Variable → Result Buffer
push_found to none = err apke_repo_variable
push_found to (some var) = ok (apk_blob_push_blob to var.value)

-- Also `apk_repoparser_subst`, which warns of an undefined variable.
pub apk_variable_subst : HashTable Variable → Bytes → Buffer → Result Buffer
unfolding push_found
apk_variable_subst vars key to =
    push_found to (apk_hash_get_hashed is_variable vars key (apk_blob_hash key))

-- The options of `set`: the line behind them and the flags; `none` is out of fuel.
pub set_options : ℕ → Bytes → ℕ → Option (Result (Bytes × ℕ))
set_options zero line flags = none
set_options (suc fuel) line flags =
    let (key, line') = get_word line in
    let rest = set_options fuel line' (bit_and flags 0xfe) in
    if get_or line 0 0 == b'-'
    then (if is_eq (apk_blob_compare key (codes "-default"))
        then rest
        else some (err apke_repo_syntax))
    else some (ok (line, flags))

-- `isalpha` is the C library's.
module _ (isalpha : ℕ → Bool) where
  set_value :
      HashTable Variable → Bytes → ℕ → Option (Result Bytes) → Option (Result (HashTable Variable))
  set_value vars key flags none = none
  set_value vars key flags (some (err e)) = some (err e)
  set_value vars key flags (some (ok value)) = some (ok (apk_variable_set vars key value flags))

  -- The first character of the line is that of the key; for an empty key it is the '='.
  set_definition :
      HashTable Variable → Bytes → ℕ → Option (Bytes × Bytes) → Option (Result (HashTable Variable))
  unfolding set_value
  set_definition vars line flags none = some (err apke_repo_variable)
  set_definition vars line flags (some (key, value)) =
      if apk_blob_starts_with key (codes "APK_")
        || not (isalpha (get_or line 0 0))
        || (apk_blob_spn apk_ctype_variable_name key).ret
      then some (err apke_repo_variable)
      else set_value vars key flags (apk_blob_subst (apk_variable_subst vars) path_max value)

  set_line : HashTable Variable → Option (Result (Bytes × ℕ)) → Option (Result (HashTable Variable))
  unfolding set_definition
  set_line vars none = none
  set_line vars (some (err e)) = some (err e)
  set_line vars (some (ok (line, flags))) =
      set_definition vars line flags (apk_blob_split line (codes "="))

  -- The variables behind the line; an error leaves them. `none` is out of fuel.
  pub apk_repoparser_parse_set : HashTable Variable → Bytes → Option (Result (HashTable Variable))
  unfolding set_line set_options
  apk_repoparser_parse_set vars line =
      set_line vars (set_options (length line + 1) line apk_varf_overwrite)
