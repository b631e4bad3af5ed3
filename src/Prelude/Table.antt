-- ===== src/Prelude/Table.antt =====
-- A fact about every byte, checked by evaluating it at each.
use Prim.Native.Nat.{ℕ, zero, suc, ◌<◌}
use mathlib.Core.Path.{◌≡◌}
use mathlib.Core.Bool.{Bool, true, ◌&&◌}
use native.Mathlib.Omega.{arith}
use apk_tools.Prelude.Tests.{◌==◌, ==_iff}

unfoldable pub all_below : ℕ → (ℕ → Bool) → Bool
all_below zero test = true
all_below (suc bound) test = all_below bound test && test bound

pub all_below_sound :
    (bound : ℕ) (test : ℕ → Bool) (i : ℕ) → all_below bound test ≡ true → i < bound → test i ≡ true
unfolding all_below
all_below_sound (suc bound) test i holds below = ground (arith, all_below_sound bound test i)
all_below_sound zero test i holds below = absurd (omega arith)

pub agree_below :
    (n : ℕ) (f g : ℕ → ℕ) → all_below n (λ x. f x == g x) ≡ true → (x : ℕ) → x < n → f x ≡ g x
agree_below n f g h x lt = (==_iff (f x) (g x)).0 (all_below_sound n (λ y. f y == g y) x h lt)

pub agree_below2 :
    (n m : ℕ) (f g : ℕ → ℕ → ℕ)
    → all_below n (λ x. all_below m (λ y. f x y == g x y)) ≡ true
    → (x y : ℕ) → x < n
    → y < m
    → f x y ≡ g x y
agree_below2 n m f g h x y p q =
    agree_below m (f x) (g x) (all_below_sound n (λ x. all_below m (λ y. f x y == g x y)) x h p) y q
