-- ===== src/Version/Keys.antt =====
-- The order that decides between two tokens at one place of two versions: by kind, then by value.
use apk_tools.Blob.Compare.{lex, blob_order-lex}
use apk_tools.Prelude.Order.{◌then_by◌}
use apk_tools.Version.Loop.{compare_ends, same_token, is_pre_release, is_active}
use apk_tools.Prelude.{
  ℕ, ◌≡◌, if◌then◌else◌, Ordering, ltb, ◌≢◌, arith, compare, ◌&&◌, ◌-◌, ◌==◌, true, false, ◌||◌,
  ◌⊎◌, inl, sym, ◌∙◌, ap, inr,
}
use apk_tools.Version.{
  token_initial_digit, token_digit, token_letter, token_suffix_no, token_commit_hash,
  token_revision_no, token_invalid, TokenState, Token, token_cmp, cmp_result, cmp_as, index, first,
  sort_result, token_suffix, suffix_index, token_end,
}
use Prim.Native.Nat.{ℕ, Ordering, compare}

-- A pre-release suffix comes before everything, then what is no token, then the end of the
-- version, then the tokens from the last of a version to the first.
unfoldable pub rank : TokenState → ℕ
rank t = if is_pre_release t then 0 else 9 - index t.token

-- Numbers with a leading zero are compared as text.
abbrev pub number_order : TokenState → TokenState → Ordering
number_order ta tb =
    if first ta.value == b'0' || first tb.value == b'0'
    then lex ta.value tb.value
    else compare ta.number tb.number

-- The order of two tokens of one kind.
unfoldable pub value_order : Token → TokenState → TokenState → Ordering
value_order token_initial_digit ta tb = compare ta.number tb.number
value_order token_digit ta tb = number_order ta tb
value_order token_letter ta tb = compare (first ta.value) (first tb.value)
value_order token_suffix ta tb = compare (suffix_index ta.suffix) (suffix_index tb.suffix)
value_order token_suffix_no ta tb = compare ta.number tb.number
value_order token_commit_hash ta tb = lex ta.value tb.value
value_order token_revision_no ta tb = compare ta.number tb.number
value_order token_end ta tb = Ordering.eq
value_order token_invalid ta tb = Ordering.eq

unfoldable pub order_at : TokenState → TokenState → Ordering
order_at ta tb = compare (rank ta) (rank tb) then_by value_order ta.token ta tb

cmp_result-compare : (a b : ℕ) → cmp_result a b ≡ sort_result (compare a b)
cmp_result-compare a b = ground arith

cmp_as-value_order :
    (k : Token) (ta tb : TokenState)
    → ltb (index k) (index token_end) ≡ true
    → cmp_as k ta tb ≡ sort_result (value_order k ta tb)
unfolding cmp_as value_order
cmp_as-value_order token_digit ta tb h =
    ground (arith, cmp_result-compare ta.number tb.number, blob_order-lex ta.value tb.value)
cmp_as-value_order token_initial_digit ta tb h = cmp_result-compare ta.number tb.number
cmp_as-value_order token_letter ta tb h = cmp_result-compare (first ta.value) (first tb.value)
cmp_as-value_order token_suffix ta tb h =
    cmp_result-compare (suffix_index ta.suffix) (suffix_index tb.suffix)
cmp_as-value_order token_suffix_no ta tb h = cmp_result-compare ta.number tb.number
cmp_as-value_order token_commit_hash ta tb h = rw (blob_order-lex ta.value tb.value)
cmp_as-value_order token_revision_no ta tb h = cmp_result-compare ta.number tb.number
cmp_as-value_order token_end ta tb h = cc
cmp_as-value_order token_invalid ta tb h = cc

-- Two suffixes of which one alone is a pre-release differ in their values in the same way.
suffix_rank :
    (ta tb : TokenState)
    → ta.token ≡ token_suffix
    → tb.token ≡ token_suffix
    → order_at ta tb ≡ value_order token_suffix ta tb
unfolding order_at rank value_order
suffix_rank ta tb e e' = ground arith

other_rank :
    (ta tb : TokenState)
    → ta.token ≡ tb.token
    → ta.token ≢ token_suffix
    → order_at ta tb ≡ value_order ta.token ta tb
unfolding order_at rank
other_rank ta tb e n = ground arith

token_of_index : (s t : Token) → index s ≡ index t → s ≡ t
token_of_index s t h = ground arith

suffix_or_not : (k : Token) → (k ≡ token_suffix) ⊎ (k ≢ token_suffix)
suffix_or_not k = ground arith

pub same_order :
    (ta tb : TokenState) → ta.token ≡ tb.token → order_at ta tb ≡ value_order ta.token ta tb
same_order ta tb e = elim (suffix_or_not ta.token) [
  | inl s ↦ suffix_rank ta tb s (sym e ∙ s) ∙ ap (λ k. value_order k ta tb) (sym s)
  | inr n ↦ other_rank ta tb e n
]

pub token_cmp-order_at :
    (ta tb : TokenState)
    → (same_token ta tb && is_active ta) ≡ true
    → token_cmp ta tb ≡ sort_result (order_at ta tb)
unfolding token_cmp
token_cmp-order_at ta tb h =
    let e : ta.token ≡ tb.token = token_of_index ta.token tb.token (ground arith) in
    rw (same_order ta tb e) (cmp_as-value_order ta.token ta tb (ground arith))

pub compare_ends-order_at :
    (ta tb : TokenState)
    → (same_token ta tb && is_active ta) ≡ false
    → compare_ends false ta tb ≡ sort_result (order_at ta tb)
unfolding compare_ends order_at rank value_order
compare_ends-order_at ta tb h = ground arith
