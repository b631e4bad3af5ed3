-- ===== src/Version.antt =====
-- src/version.c: the tokens of a version and the step from one to the next. The operators, the
-- loops over tokens and the proofs are in the child modules.
pub mod Ops
pub mod Loop
pub mod Cases
pub mod Progress
pub mod Total
pub mod Keys
pub mod Order
pub mod Compare
pub mod Reads
pub mod Grammar
pub mod Validate
pub mod Match
pub mod OpText
use apk_tools.Prelude.{
  ℕ, ◌-◌, Bool, true, false, ◌&&◌, ◌||◌, [], ◌∷◌, Ordering, compare, Option, none, some, ltb, leb,
  ◌==◌, if◌then◌else◌, length, get_or, take, Bytes, codes,
}
use apk_tools.Ctype.{Span, apk_blob_spn, apk_ctype_hexdigit, apk_ctype_version_suffix}
use apk_tools.Ctype.Classes.{is_digit, is_lower}
use apk_tools.Blob.{apk_blob_compare, blob_order, apk_blob_pull_blob_match, is_eq}
use apk_tools.Blob.Number.{apk_blob_pull_uint}

abbrev pub apk_version_equal : ℕ
apk_version_equal = 1

abbrev pub apk_version_less : ℕ
apk_version_less = 2

abbrev pub apk_version_greater : ℕ
apk_version_greater = 4

abbrev pub apk_version_fuzzy : ℕ
apk_version_fuzzy = 8

abbrev pub apk_version_conflict : ℕ
apk_version_conflict = 16

abbrev pub apk_depmask_any : ℕ
apk_depmask_any = 7

abbrev pub apk_depmask_checksum : ℕ
apk_depmask_checksum = 6

pub data Token : Type 0 where
  token_initial_digit token_digit token_letter token_suffix token_suffix_no : Token
  token_commit_hash token_revision_no token_end token_invalid : Token

-- The number of a token in `enum PARTS`.
abbrev pub index : Token → ℕ
index token_initial_digit = 0
index token_digit = 1
index token_letter = 2
index token_suffix = 3
index token_suffix_no = 4
index token_commit_hash = 5
index token_revision_no = 6
index token_end = 7
index token_invalid = 8

pub data Suffix : Type 0 where
  suffix_invalid suffix_alpha suffix_beta suffix_pre suffix_rc suffix_none : Suffix
  suffix_cvs suffix_svn suffix_git suffix_hg suffix_p : Suffix

-- The number of a suffix in the enumeration that `DECLARE_SUFFIXES` makes.
abbrev pub suffix_index : Suffix → ℕ
suffix_index suffix_invalid = 0
suffix_index suffix_alpha = 1
suffix_index suffix_beta = 2
suffix_index suffix_pre = 3
suffix_index suffix_rc = 4
suffix_index suffix_none = 5
suffix_index suffix_cvs = 6
suffix_index suffix_svn = 7
suffix_index suffix_git = 8
suffix_index suffix_hg = 9
suffix_index suffix_p = 10

-- The text of each suffix.
abbrev pub suffix_literal : Suffix → Bytes
suffix_literal suffix_invalid = []
suffix_literal suffix_alpha = codes "alpha"
suffix_literal suffix_beta = codes "beta"
suffix_literal suffix_pre = codes "pre"
suffix_literal suffix_rc = codes "rc"
suffix_literal suffix_none = []
suffix_literal suffix_cvs = codes "cvs"
suffix_literal suffix_svn = codes "svn"
suffix_literal suffix_git = codes "git"
suffix_literal suffix_hg = codes "hg"
suffix_literal suffix_p = codes "p"

pub record TokenState : Type 0 where
  pub token : Token
  pub suffix : Suffix
  pub number : ℕ
  pub value : Bytes

-- The suffix that the first letter of `suf` names.
suffix_guess : ℕ → ℕ → Suffix
suffix_guess len c =
    if c == b'a'
    then suffix_alpha
    else if c == b'b'
    then suffix_beta
    else if c == b'c'
    then suffix_cvs
    else if c == b'g'
    then suffix_git
    else if c == b'h'
    then suffix_hg
    else if c == b'p'
    then (if ltb 1 len then suffix_pre else suffix_p)
    else if c == b'r'
    then suffix_rc
    else if c == b's'
    then suffix_svn
    else suffix_invalid

-- `SUFFIX_INVALID` at an unknown first letter, or where the rest is not that suffix's.
suffix_checked : Suffix → Bytes → Suffix
suffix_checked suffix_invalid suf = suffix_invalid
suffix_checked val suf =
    if is_eq (apk_blob_compare suf (suffix_literal val)) then val else suffix_invalid

pub suffix_value : Bytes → Suffix
unfolding suffix_guess suffix_checked
suffix_value [] = suffix_invalid
suffix_value (c ∷ suf) = suffix_checked (suffix_guess (length (c ∷ suf)) c) (c ∷ suf)

-- The last three lines of `token_cmp`.
abbrev pub cmp_result : ℕ → ℕ → ℕ
cmp_result a b =
    if ltb a b then apk_version_less else if ltb b a then apk_version_greater else apk_version_equal

-- What `token_cmp` makes of the sign that `apk_blob_sort` returns; tokens are shorter than 2^31.
abbrev pub sort_result : Ordering → ℕ
sort_result Ordering.lt = apk_version_less
sort_result Ordering.gt = apk_version_greater
sort_result Ordering.eq = apk_version_equal

-- `value.ptr[0]`; no token that is compared so has an empty value.
abbrev pub first : Bytes → ℕ
first b = get_or b 0 0

cmp_as : Token → TokenState → TokenState → ℕ
cmp_as token_digit ta tb =
    if first ta.value == b'0' || first tb.value == b'0'
    then sort_result (blob_order ta.value tb.value)
    else cmp_result ta.number tb.number
cmp_as token_initial_digit ta tb = cmp_result ta.number tb.number
cmp_as token_suffix_no ta tb = cmp_result ta.number tb.number
cmp_as token_revision_no ta tb = cmp_result ta.number tb.number
cmp_as token_letter ta tb = cmp_result (first ta.value) (first tb.value)
cmp_as token_suffix ta tb = cmp_result (suffix_index ta.suffix) (suffix_index tb.suffix)
cmp_as token_commit_hash ta tb = sort_result (blob_order ta.value tb.value)
cmp_as token_end ta tb = sort_result (blob_order ta.value tb.value)
cmp_as token_invalid ta tb = sort_result (blob_order ta.value tb.value)

pub token_cmp : TokenState → TokenState → ℕ
unfolding cmp_as
token_cmp ta tb = cmp_as ta.token ta tb

abbrev pub invalid : TokenState → TokenState
invalid t = record t { token = token_invalid }

-- The state with the digits read, and the blob behind them.
pub token_parse_digits : TokenState → Bytes → TokenState × Bytes
token_parse_digits t b =
    let (number, rest) = apk_blob_pull_uint b 10 in
    let value = take (length b - length rest) b in
    let t' = record t { number = number; value = value } in
    (if length value == 0 then invalid t' else t', rest)

-- The suffix of a new state is not set in the source, and not read before it is.
pub token_first : Bytes → TokenState × Bytes
unfolding token_parse_digits
token_first b =
    let fresh : TokenState = record {
      token = token_initial_digit;
      suffix = suffix_invalid;
      number = 0;
      value = [];
    } in
    token_parse_digits fresh b

-- The inner switch of a digit: which token the digits make, by the token before.
pub number_token : Token → Option Token
number_token token_initial_digit = some token_digit
number_token token_digit = some token_digit
number_token token_suffix = some token_suffix_no
number_token _ = none

pub next_number : Option Token → TokenState → Bytes → TokenState × Bytes
next_number none t b = (invalid t, b)
next_number (some k) t b = token_parse_digits (record t { token = k }) b

pub next_suffix : TokenState → Span → TokenState × Bytes
next_suffix t s =
    let t' = record t { value = s.l; suffix = suffix_value s.l } in
    (if suffix_index t'.suffix == 0 then invalid t' else record t' { token = token_suffix }, s.r)

pub next_hash : TokenState → Span → TokenState × Bytes
next_hash t s =
    let t' = record t { value = s.l } in
    (if length s.l == 0 then invalid t' else record t' { token = token_commit_hash }, s.r)

pub next_revision : TokenState → Bytes → Option Bytes → TokenState × Bytes
next_revision t b none = (invalid t, b)
next_revision t b (some rest) = token_parse_digits (record t { token = token_revision_no }) rest

pub token_next : TokenState → Bytes → TokenState × Bytes
token_next t [] = (record t { token = token_end }, [])
token_next t (c ∷ b) =
    if is_lower c
    then (if ltb 1 (index t.token)
        then (invalid t, c ∷ b)
        else (record t { value = c ∷ []; token = token_letter }, b))
    else if c == b'.'
    then (if ltb 1 (index t.token)
        then (invalid t, c ∷ b)
        else next_number (number_token t.token) t b)
    else if is_digit c
    then next_number (number_token t.token) t (c ∷ b)
    else if c == b'_'
    then (if ltb 4 (index t.token)
        then (invalid t, c ∷ b)
        else next_suffix t (apk_blob_spn apk_ctype_version_suffix b))
    else if c == b'~'
    then (if leb 5 (index t.token)
        then (invalid t, c ∷ b)
        else next_hash t (apk_blob_spn apk_ctype_hexdigit b))
    else if c == b'-'
    then (if leb 6 (index t.token)
        then (invalid t, c ∷ b)
        else next_revision t (c ∷ b) (apk_blob_pull_blob_match (c ∷ b) (codes "-r")))
    else (invalid t, c ∷ b)
