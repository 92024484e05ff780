-- ===== src/Common/Tables.antt =====
-- A fact about every value below a bound, checked by evaluation.
use Prim.Native.Nat.{ℕ, zero, suc, ◌<◌}
use mathlib.Core.Path.{◌≡◌}
use mathlib.Core.Bool.{Bool, true, false}
use native.Mathlib.Omega.{arith}
use libstappler_common.Common.Tests.{◌==◌, ==_iff, if◌then◌else◌}

unfoldable pub all_below : ℕ → (ℕ → Bool) → Bool
all_below zero test = true
all_below (suc bound) test = if test bound then all_below bound test else false

pub all_below_sound :
    (bound : ℕ) (test : ℕ → Bool) (i : ℕ) → all_below bound test ≡ true → i < bound → test i ≡ true
unfolding all_below
all_below_sound zero test i whole fits = absurd (omega arith)
all_below_sound (suc bound) test i whole fits = ground (arith, all_below_sound bound test i)

pub table_eq :
    (n : ℕ) (f g : ℕ → ℕ) → all_below n (λ x. f x == g x) ≡ true → (x : ℕ) → x < n → f x ≡ g x
table_eq n f g h x lt = (==_iff (f x) (g x)).0 (all_below_sound n _ x h lt)
