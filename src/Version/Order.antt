-- ===== src/Version/Order.antt =====
-- The comparison of versions as an order: the first place where the tokens differ decides.
pub mod Laws
use apk_tools.Blob.Compare.{lex-flip, lex_self, lex, lex-Trans}
use apk_tools.Prelude.Order.{flip, compare_self, Trans, then_by_Trans, compare-flip, compare-Trans}
use apk_tools.Version.Progress.{LeadsWithDigit}
use apk_tools.Prelude.{
  ℕ, Bytes, Ordering, ◌≡◌, Option, compare, ◌≤◌, suc, arith, some, false, ◌<◌, if◌then◌else◌, sym,
  ◌∙◌, Bool, Bool-cases, true, ◌==◌, ◌&&◌, inl, inr, refl, ◌∷◌,
}
use apk_tools.Version.{
  TokenState, first, apk_version_less, apk_version_greater, token_next, apk_version_equal, Token,
  sort_result, suffix_index, token_digit, token_initial_digit, token_commit_hash, token_letter,
  token_suffix, token_suffix_no, token_revision_no, token_end, token_invalid,
}
use apk_tools.Version.Keys.{
  rank, value_order, order_at, number_order, token_cmp-order_at, compare_ends-order_at,
}
use Prim.Native.Nat.{ℕ, Ordering, compare, suc}
use apk_tools.Version.Loop.{compare_loop, is_active, same_token}

-- What the comparison of two tokens of equal rank needs of them.
rank_token : (ta tb : TokenState) → rank ta ≡ rank tb → ta.token ≡ tb.token
unfolding rank
rank_token ta tb h = ground arith

number_order-flip : (ta tb : TokenState) → number_order tb ta ≡ flip (number_order ta tb)
number_order-flip ta tb =
    ground (arith, lex-flip ta.value tb.value, compare-flip ta.number tb.number)

value_order-flip :
    (k : Token) (ta tb : TokenState) → value_order k tb ta ≡ flip (value_order k ta tb)
unfolding value_order
value_order-flip token_initial_digit ta tb = compare-flip ta.number tb.number
value_order-flip token_digit ta tb = number_order-flip ta tb
value_order-flip token_letter ta tb = compare-flip (first ta.value) (first tb.value)
value_order-flip token_suffix ta tb = compare-flip (suffix_index ta.suffix) (suffix_index tb.suffix)
value_order-flip token_suffix_no ta tb = compare-flip ta.number tb.number
value_order-flip token_commit_hash ta tb = lex-flip ta.value tb.value
value_order-flip token_revision_no ta tb = compare-flip ta.number tb.number
value_order-flip token_end ta tb = refl
value_order-flip token_invalid ta tb = refl

compare-eq : (a b : ℕ) → compare a b ≡ Ordering.eq → a ≡ b
compare-eq a b h = ground arith

pub order_at-flip : (ta tb : TokenState) → order_at tb ta ≡ flip (order_at ta tb)
unfolding order_at
order_at-flip ta tb = ground (arith, rank_token ta tb, value_order-flip ta.token ta tb)

number_order_self : (t : TokenState) → number_order t t ≡ Ordering.eq
number_order_self t = ground (arith, lex_self t.value)

value_order_self : (k : Token) (t : TokenState) → value_order k t t ≡ Ordering.eq
unfolding value_order
value_order_self token_digit t = number_order_self t
value_order_self token_commit_hash t = lex_self t.value
value_order_self _ t = ground arith

pub order_at_self : (t : TokenState) → order_at t t ≡ Ordering.eq
unfolding order_at
order_at_self t = rw (compare_self (rank t)) (value_order_self t.token t)

-- Text with a leading zero comes before text with another first digit.
zero_first : (a b : Bytes) → first a ≡ b'0' → b'0' < first b → lex a b ≡ Ordering.lt
zero_first (x ∷ a) (y ∷ b) h k = ground arith
zero_first _ _ h k = ground arith

number_order-Trans :
    (ta tb tc : TokenState)
    → b'0' ≤ first ta.value
    → b'0' ≤ first tb.value
    → b'0' ≤ first tc.value
    → Trans (number_order ta tb) (number_order tb tc) (number_order ta tc)
number_order-Trans ta tb tc ha hb hc = ground (
  arith,
  lex-Trans ta.value tb.value tc.value,
  compare-Trans ta.number tb.number tc.number,
  zero_first ta.value tb.value,
  zero_first ta.value tc.value,
  zero_first tb.value tc.value,
  zero_first tb.value ta.value,
  zero_first tc.value ta.value,
  zero_first tc.value tb.value,
  lex-flip ta.value tb.value,
  lex-flip ta.value tc.value,
  lex-flip tb.value tc.value,
)

value_order-Trans :
    (k : Token) (ta tb tc : TokenState)
    → (k ≡ token_digit
        → (b'0' ≤ first ta.value) × (b'0' ≤ first tb.value) × (b'0' ≤ first tc.value))
    → Trans (value_order k ta tb) (value_order k tb tc) (value_order k ta tc)
unfolding value_order
value_order-Trans token_digit ta tb tc h =
    number_order-Trans ta tb tc (h refl).0 (h refl).1 (h refl).2
value_order-Trans token_commit_hash ta tb tc h = lex-Trans ta.value tb.value tc.value
value_order-Trans _ ta tb tc h = ground arith

pub order_at-Trans :
    (ta tb tc : TokenState)
    → LeadsWithDigit ta
    → LeadsWithDigit tb
    → LeadsWithDigit tc
    → Trans (order_at ta tb) (order_at tb tc) (order_at ta tc)
unfolding order_at
order_at-Trans ta tb tc ha hb hc =
    then_by_Trans _ _ _ _ _ _ (compare-Trans (rank ta) (rank tb) (rank tc)) (λ e f.
      let ab = rank_token ta tb (compare-eq _ _ e) in
      let bc = rank_token tb tc (compare-eq _ _ f) in
      simp (← ab) (
        value_order-Trans ta.token ta tb tc
          (λ d. (ha d, hb (sym ab ∙ d), hc (sym bc ∙ sym ab ∙ d)))))

abbrev pub by_order : Ordering → Option ℕ → Option ℕ
by_order Ordering.lt rest = some apk_version_less
by_order Ordering.gt rest = some apk_version_greater
by_order Ordering.eq rest = rest

by_sort :
    (o : Ordering) (rest : Option ℕ)
    → (if sort_result o == apk_version_equal then rest else some (sort_result o)) ≡ by_order o rest
by_sort o rest = ground arith

at_end :
    (o : Ordering) (active : Bool) (rest : Option ℕ)
    → (o ≡ Ordering.eq → active ≡ false)
    → some (sort_result o) ≡ by_order o (if active then rest else some apk_version_equal)
at_end Ordering.lt active rest h = refl
at_end Ordering.gt active rest h = refl
at_end Ordering.eq active rest h = rw (h refl)

both_active : (same active : Bool) → (same && active) ≡ true → active ≡ true
both_active same active h = ground arith

not_both : (same active : Bool) → same ≡ true → (same && active) ≡ false → active ≡ false
not_both same active h k = ground arith

same_of_eq : (ta tb : TokenState) → ta.token ≡ tb.token → same_token ta tb ≡ true
same_of_eq ta tb e = ground arith

order_at-same : (ta tb : TokenState) → order_at ta tb ≡ Ordering.eq → ta.token ≡ tb.token
unfolding order_at
order_at-same ta tb e = ground (arith, rank_token ta tb)

-- One round of the comparison: the first difference decides, and equal ends are equal.
pub compare_loop_step :
    (fuel : ℕ) (ta : TokenState) (a : Bytes) (tb : TokenState) (b : Bytes)
    → compare_loop (suc fuel) false ta a tb b
      ≡ by_order (order_at ta tb) (
          if is_active ta
          then compare_loop fuel false
              (token_next ta a).0
              (token_next ta a).1
              (token_next tb b).0
              (token_next tb b).1
          else some apk_version_equal)
unfolding compare_loop
compare_loop_step fuel ta a tb b = elim (Bool-cases (same_token ta tb && is_active ta)) [
  | inl going ↦
      rw
        (going, both_active (same_token ta tb) (is_active ta) going, token_cmp-order_at ta tb going)
        (by_sort (order_at ta tb) _)
  | inr over ↦
      rw (over, compare_ends-order_at ta tb over)
        (at_end (order_at ta tb) (is_active ta) _ λ e.
          not_both (same_token ta tb) (is_active ta) (same_of_eq ta tb (order_at-same ta tb e))
            over)
]
