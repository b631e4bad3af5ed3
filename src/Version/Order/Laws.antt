-- ===== src/Version/Order/Laws.antt =====
-- The laws of the order on versions, through the loop and at the functions that are called.
use apk_tools.Version.Keys.{order_at}
use apk_tools.Version.Progress.{LeadsWithDigit, token_next-LeadsWithDigit}
use apk_tools.Version.Order.{
  by_order, compare_loop_step, order_at-flip, order_at_self, order_at-same, order_at,
  order_at-Trans,
}
use apk_tools.Prelude.Order.{Trans}
use apk_tools.Version.{
  TokenState, apk_version_less, apk_version_greater, token_next, apk_version_equal,
}
use apk_tools.Prelude.{
  true, ℕ, Ordering, if◌then◌else◌, Option, Bytes, ◌==◌, false, ◌≡◌, some, arith, zero, Bool, refl,
  sym, ◌∙◌,
}
use Prim.Native.Nat.{ℕ, Ordering, suc}
use apk_tools.Version.Loop.{compare_loop, is_active}

-- The result of the comparison the other way round.
abbrev pub flip_result : ℕ → ℕ
flip_result r =
    if r == apk_version_less
    then apk_version_greater
    else if r == apk_version_greater
    then apk_version_less
    else r

abbrev next_loop : ℕ → TokenState → Bytes → TokenState → Bytes → Option ℕ
next_loop n ta a tb b =
    compare_loop n false (token_next ta a).0 (token_next ta a).1 (token_next tb b).0
      (token_next tb b).1

compare_loop-zero :
    (ta : TokenState) (a : Bytes) (tb : TokenState) (b : Bytes) {r : ℕ}
    → compare_loop zero false ta a tb b ≡ some r
    → ⊥
unfolding compare_loop
compare_loop-zero ta a tb b e = cc

pub compare_loop_flip :
    (n m : ℕ) (ta : TokenState) (a : Bytes) (tb : TokenState) (b : Bytes) (r s : ℕ)
    → compare_loop n false ta a tb b ≡ some r
    → compare_loop m false tb b ta a ≡ some s
    → s ≡ flip_result r
compare_loop_flip zero m ta a tb b r s e f = absurd (compare_loop-zero _ _ _ _ e)
compare_loop_flip (suc n) zero ta a tb b r s e f = absurd (compare_loop-zero _ _ _ _ f)
compare_loop_flip (suc n) (suc m) ta a tb b r s e f = ground (
  arith,
  compare_loop_step n ta a tb b,
  compare_loop_step m tb b ta a,
  order_at-flip ta tb,
  order_at-same ta tb,
  compare_loop_flip n m (token_next ta a).0 (token_next ta a).1 (token_next tb b).0
      (token_next tb b).1 r s,
)

pub compare_loop_self :
    (n : ℕ) (t : TokenState) (a : Bytes) (r : ℕ)
    → compare_loop n false t a t a ≡ some r
    → r ≡ apk_version_equal
compare_loop_self zero t a r e = absurd (compare_loop-zero _ _ _ _ e)
compare_loop_self (suc n) t a r e = ground (
  arith,
  compare_loop_step n t a t a,
  order_at_self t,
  compare_loop_self n (token_next t a).0 (token_next t a).1 r,
)

-- A result as an order; what is neither less nor equal counts as greater.
abbrev pub sign : ℕ → Ordering
sign r =
    if r == apk_version_less
    then Ordering.lt
    else if r == apk_version_equal
    then Ordering.eq
    else Ordering.gt

Trans-by :
    (o p q : Ordering) (e f g : Option ℕ) (r s u : ℕ)
    → Trans o p q
    → by_order o e ≡ some r
    → by_order p f ≡ some s
    → by_order q g ≡ some u
    → (o ≡ Ordering.eq
        → p ≡ Ordering.eq
        → e ≡ some r
        → f ≡ some s
        → g ≡ some u
        → Trans (sign r) (sign s) (sign u))
    → Trans (sign r) (sign s) (sign u)
Trans-by Ordering.eq Ordering.eq q e f g r s u t x y z k = k refl refl x y (rw t at z)
Trans-by _ _ q e f g r s u t x y z k = ground arith

active_same : (ta tb : TokenState) → ta.token ≡ tb.token → is_active ta ≡ is_active tb
active_same ta tb e = ground arith

at_ends :
    (p q : Bool) (e f g : Option ℕ) (r s u : ℕ)
    → p ≡ q
    → (if p then e else some apk_version_equal) ≡ some r
    → (if q then f else some apk_version_equal) ≡ some s
    → (if p then g else some apk_version_equal) ≡ some u
    → (e ≡ some r → f ≡ some s → g ≡ some u → Trans (sign r) (sign s) (sign u))
    → Trans (sign r) (sign s) (sign u)
at_ends true true e f g r s u h x y z k = k x y z
at_ends _ _ e f g r s u h x y z k = ground arith

pub compare_loop-Trans :
    (n m k : ℕ) (ta : TokenState) (a : Bytes) (tb : TokenState) (b : Bytes) (tc : TokenState)
    (c : Bytes) (r s u : ℕ)
    → LeadsWithDigit ta
    → LeadsWithDigit tb
    → LeadsWithDigit tc
    → compare_loop n false ta a tb b ≡ some r
    → compare_loop m false tb b tc c ≡ some s
    → compare_loop k false ta a tc c ≡ some u
    → Trans (sign r) (sign s) (sign u)
compare_loop-Trans zero m k ta a tb b tc c r s u ha hb hc e f g =
    absurd (compare_loop-zero _ _ _ _ e)
compare_loop-Trans (suc n) zero k ta a tb b tc c r s u ha hb hc e f g =
    absurd (compare_loop-zero _ _ _ _ f)
compare_loop-Trans (suc n) (suc m) zero ta a tb b tc c r s u ha hb hc e f g =
    absurd (compare_loop-zero _ _ _ _ g)
compare_loop-Trans (suc n) (suc m) (suc k) ta a tb b tc c r s u ha hb hc e f g =
    Trans-by (order_at ta tb) (order_at tb tc) (order_at ta tc) _ _ _ r s u
      (order_at-Trans ta tb tc ha hb hc) (sym (compare_loop_step n ta a tb b) ∙ e)
      (sym (compare_loop_step m tb b tc c) ∙ f) (sym (compare_loop_step k ta a tc c) ∙ g)
      (λ o p x y z.
        at_ends (is_active ta) (is_active tb) _ _ _ r s u
          (active_same ta tb (order_at-same ta tb o)) x y z
          (compare_loop-Trans n m k (token_next ta a).0 (token_next ta a).1 (token_next tb b).0
            (token_next tb b).1 (token_next tc c).0 (token_next tc c).1 r s u
            (token_next-LeadsWithDigit ta a) (token_next-LeadsWithDigit tb b)
            (token_next-LeadsWithDigit tc c)))
