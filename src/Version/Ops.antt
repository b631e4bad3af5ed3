-- ===== src/Version/Ops.antt =====
-- src/version.c: the operators of a dependency, as text and as a mask.
use apk_tools.Prelude.{ℕ, ◌-◌, [], ◌∷◌, bit_and, bit_or, ◌==◌, ◌||◌, if◌then◌else◌, Bytes, codes}
use apk_tools.Version.{
  apk_version_equal, apk_version_less, apk_version_greater, apk_version_fuzzy, apk_version_conflict,
}

infixl 60 ◌orr◌
abbrev ◌orr◌ : ℕ → ℕ → ℕ
a orr b = bit_or a b

-- `op & ~APK_VERSION_CONFLICT`.
abbrev pub without_conflict : ℕ → ℕ
without_conflict op = op - bit_and op apk_version_conflict

op_text : ℕ → Bytes
op_text op =
    if op == apk_version_less
    then codes "<"
    else if op == apk_version_less orr apk_version_equal
    then codes "<="
    else if op == apk_version_less orr apk_version_equal orr apk_version_fuzzy
    then codes "<~"
    else if op == apk_version_equal orr apk_version_fuzzy || op == apk_version_fuzzy
    then codes "~"
    else if op == apk_version_equal
    then codes "="
    else if op == apk_version_greater orr apk_version_equal
    then codes ">="
    else if op == apk_version_greater orr apk_version_equal orr apk_version_fuzzy
    then codes ">~"
    else if op == apk_version_greater
    then codes ">"
    else if op == 6
    then codes "><"
    else if op == 7
    then codes ""
    else codes "?"

unfoldable pub apk_version_op_string : ℕ → Bytes
unfolding op_text
apk_version_op_string op = op_text (without_conflict op)

-- The loop of `apk_version_result_mask_blob` from the mask `r`.
unfoldable pub mask_from : ℕ → Bytes → ℕ
mask_from r [] = r
mask_from r (c ∷ op) =
    let less = mask_from (r orr apk_version_less) op in
    let greater = mask_from (r orr apk_version_greater) op in
    let equal = mask_from (r orr apk_version_equal) op in
    let fuzzy = mask_from (r orr (apk_version_fuzzy orr apk_version_equal)) op in
    if c == b'<'
    then less
    else if c == b'>'
    then greater
    else if c == b'='
    then equal
    else if c == b'~'
    then fuzzy
    else 0

unfoldable pub apk_version_result_mask_blob : Bytes → ℕ
apk_version_result_mask_blob op = mask_from 0 op
