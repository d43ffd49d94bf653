-- ===== src/Base/WellFounded.antt =====
-- The order of the native numbers is well-founded, and the halving step of a loop descends in it.
use Prim.Native.Nat.{ℕ, zero, suc, ◌/◌, ◌<◌}
use mathlib.Core.WellFounded.{Acc, WellFounded}
use native.Mathlib.Omega.{arith}

Acc-below : (k n : ℕ) → n < k → Acc ◌<◌ n
Acc-below zero n h = elim h [ ]
Acc-below (suc k) n h = Acc.intro n (λ m hm. Acc-below k m (omega arith))

unfoldable pub lt_wf : WellFounded ◌<◌
unfolding Acc-below
lt_wf = record { apply = λ n. Acc-below (suc n) n (omega arith) }

pub half-lt : (n : ℕ) → 0 < n → n / 2 < n
half-lt n h = omega arith
