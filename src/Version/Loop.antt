-- ===== src/Version/Loop.antt =====
-- src/version.c: the loops over tokens, and the functions that other files call.
use apk_tools.Blob.Number.{apk_blob_pull_uint, pull_digits, dx}
use apk_tools.Ctype.{apk_blob_spn, span_until, in_class}
use apk_tools.Prelude.{
  ℕ, zero, suc, ◌+◌, Bool, false, not, ◌&&◌, ◌||◌, Option, none, some, bit_and, ltb, ◌==◌,
  if◌then◌else◌, length, Bytes,
}
use apk_tools.Blob.{
  Blob, null, blob, bytes, apk_blob_compare, blob_order, memcmp, apk_blob_pull_blob_match,
}
use apk_tools.Version.{
  TokenState, index, suffix_index, token_end, token_suffix, token_cmp, token_first, token_next,
  apk_version_equal, apk_version_less, apk_version_greater, apk_version_fuzzy, apk_version_conflict,
  apk_depmask_any, cmp_as, token_parse_digits, number_token, next_number, next_suffix, next_hash,
  next_revision, suffix_value, apk_blob_spn, apk_blob_pull_uint,
}

abbrev pub same_token : TokenState → TokenState → Bool
same_token ta tb = index ta.token == index tb.token

abbrev pub is_active : TokenState → Bool
is_active t = ltb (index t.token) (index token_end)

-- The loop of `apk_version_validate`; `none` is out of fuel.
unfoldable pub validate_loop : ℕ → TokenState → Bytes → Option Bool
validate_loop zero t ver = none
validate_loop (suc fuel) t ver =
    let (t', ver') = token_next t ver in
    let rest = validate_loop fuel t' ver' in
    if is_active t then rest else some (index t.token == index token_end)

abbrev pub or_false : Option Bool → Bool
or_false none = false
or_false (some b) = b

-- A token takes a character, the first and the end none: two rounds more than characters.
unfoldable pub apk_version_validate : Blob → Bool
apk_version_validate ver =
    let (t, rest) = token_first (bytes ver) in
    or_false (validate_loop (length (bytes ver) + 2) t rest)

-- A pre-release suffix: below `SUFFIX_NONE`.
abbrev pub is_pre_release : TokenState → Bool
is_pre_release t = index t.token == index token_suffix && ltb (suffix_index t.suffix) 5

-- What stands behind the loop of `apk_version_compare_fuzzy`.
unfoldable pub compare_ends : Bool → TokenState → TokenState → ℕ
compare_ends fuzzy ta tb =
    if same_token ta tb
    then apk_version_equal
    else if (index tb.token == index token_end) && fuzzy
    then apk_version_equal
    else if is_pre_release ta
    then apk_version_less
    else if is_pre_release tb
    then apk_version_greater
    else if ltb (index tb.token) (index ta.token)
    then apk_version_less
    else if ltb (index ta.token) (index tb.token)
    then apk_version_greater
    else apk_version_equal

-- The loop of `apk_version_compare_fuzzy`; `none` is out of fuel.
unfoldable pub compare_loop : ℕ → Bool → TokenState → Bytes → TokenState → Bytes → Option ℕ
compare_loop zero fuzzy ta a tb b = none
compare_loop (suc fuel) fuzzy ta a tb b =
    let (ta', a') = token_next ta a in
    let (tb', b') = token_next tb b in
    let rest = compare_loop fuel fuzzy ta' a' tb' b' in
    let r = token_cmp ta tb in
    if same_token ta tb && is_active ta
    then (if r == apk_version_equal then rest else some r)
    else some (compare_ends fuzzy ta tb)

-- Out of fuel is 0, `APK_VERSION_UNKNOWN`, which no comparison returns.
abbrev pub or_unknown : Option ℕ → ℕ
or_unknown none = 0
or_unknown (some r) = r

unfoldable pub compare_bytes : Bytes → Bytes → Bool → ℕ
compare_bytes a b fuzzy =
    let (ta, a') = token_first a in
    let (tb, b') = token_first b in or_unknown (compare_loop (length a + 2) fuzzy ta a' tb b')

unfoldable pub apk_version_compare_fuzzy : Blob → Blob → Bool → ℕ
apk_version_compare_fuzzy null null fuzzy = apk_version_equal
apk_version_compare_fuzzy null (blob b) fuzzy = apk_depmask_any
apk_version_compare_fuzzy (blob a) null fuzzy = apk_depmask_any
apk_version_compare_fuzzy (blob a) (blob b) fuzzy = compare_bytes a b fuzzy

unfoldable pub apk_version_compare : Blob → Blob → ℕ
apk_version_compare a b = apk_version_compare_fuzzy a b false

abbrev pub has : ℕ → ℕ → Bool
has op bits = ltb 0 (bit_and op bits)

unfoldable pub apk_version_match : Blob → ℕ → Blob → Bool
apk_version_match a op b =
    let ok =
      (bit_and op apk_depmask_any == apk_depmask_any)
      || has (apk_version_compare_fuzzy a b (has op apk_version_fuzzy)) op in
    if has op apk_version_conflict then not ok else ok

-- Opens, where a test unfolds it, all that a run of these functions computes with.
unfoldable pub version_run : ℕ
unfolding apk_version_compare apk_version_compare_fuzzy compare_bytes compare_loop compare_ends
    token_cmp cmp_as apk_version_match apk_version_validate validate_loop token_first token_next
    token_parse_digits number_token next_number next_suffix next_hash next_revision suffix_value
    apk_blob_spn span_until in_class apk_blob_compare blob_order memcmp apk_blob_pull_blob_match
    apk_blob_pull_uint pull_digits dx
version_run = 0
