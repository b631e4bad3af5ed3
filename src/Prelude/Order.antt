-- ===== src/Prelude/Order.antt =====
-- Three-way comparison: reversal, first-difference composition, and the sign of an `int` difference.
use Prim.Native.Nat.{ℕ, compare, Ordering}
use apk_tools.Prelude.{◌==◌, ltb, if◌then◌else◌, ◌<◌, ◌+◌, ◌-◌, ◌%◌, ◌^◌}
use mathlib.Core.Path.{◌≡◌}
use native.Mathlib.Omega.{arith}

abbrev pub flip : Ordering → Ordering
flip Ordering.lt = Ordering.gt
flip Ordering.eq = Ordering.eq
flip Ordering.gt = Ordering.lt

infixr 30 ◌then_by◌
abbrev pub ◌then_by◌ : Ordering → Ordering → Ordering
Ordering.lt then_by o = Ordering.lt
Ordering.eq then_by o = o
Ordering.gt then_by o = Ordering.gt

-- The sign of `a - b` in an `int`, which has the low 32 bits of the difference.
unfoldable pub int_sign : ℕ → ℕ → Ordering
int_sign a b =
    let d = (a % 2 ^ 32 + 2 ^ 32 - b % 2 ^ 32) % 2 ^ 32 in
    if d == 0 then Ordering.eq else if ltb d (2 ^ 31) then Ordering.gt else Ordering.lt

-- The difference of numbers below 2^31 has the sign of their comparison.
pub int_sign-compare : (a b : ℕ) → a < 2 ^ 31 → b < 2 ^ 31 → int_sign a b ≡ compare a b
unfolding int_sign
int_sign-compare a b h k = ground arith

-- What `x ≤ y` and `y ≤ z` say of `x` and `z`: nothing is greater, and a strict step stays strict.
abbrev pub Trans : Ordering → Ordering → Ordering → Type 0
Trans Ordering.lt Ordering.lt o = o ≡ Ordering.lt
Trans Ordering.lt Ordering.eq o = o ≡ Ordering.lt
Trans Ordering.eq Ordering.lt o = o ≡ Ordering.lt
Trans Ordering.eq Ordering.eq o = o ≡ Ordering.eq
Trans _ _ o = Unit

pub compare-flip : (a b : ℕ) → compare b a ≡ flip (compare a b)
compare-flip a b = ground arith

pub compare_self : (a : ℕ) → compare a a ≡ Ordering.eq
compare_self a = ground arith

pub compare-Trans : (a b c : ℕ) → Trans (compare a b) (compare b c) (compare a c)
compare-Trans a b c = ground arith

pub flip-then_by : (o p : Ordering) → flip (o then_by p) ≡ flip o then_by flip p
flip-then_by o p = ground arith

-- First difference: a transitive head and a tail that is transitive where the heads are equal.
pub then_by_Trans :
    (o p q o' p' q' : Ordering)
    → Trans o p q
    → (o ≡ Ordering.eq → p ≡ Ordering.eq → Trans o' p' q')
    → Trans (o then_by o') (p then_by p') (q then_by q')
then_by_Trans o p q o' p' q' h k = ground arith
