-- ===== src/Math/Pow.antt =====
-- `Rate::try_pow` (src/math/rate.rs), the loop that compounds interest.
pub mod Bound
use mathlib.Core.WellFounded.{Acc}
use allwinprotocol.Base.{ℕ, ◌*◌, ◌/◌, ◌%◌, ◌≤◌, ◌<◌, ◌^◌, ◌≡◌, arith, ◌==◌, if◌then◌else◌}
use allwinprotocol.Base.WellFounded.{lt_wf}
use allwinprotocol.Error.{ok, fail, math_overflow}
use allwinprotocol.Math.Rate
use allwinprotocol.Math.Rate.{Rate}

try_mul_ge :
    (a b c : Rate) → Rate.one ≤ a → Rate.one ≤ b → Rate.try_mul a b ≡ ok c → (a ≤ c) × (b ≤ c)
unfolding Rate.try_mul
try_mul_ge a b c ha hb h = grind arith

mul_if_odd_ge :
    (exp : ℕ) (base ret r : Rate)
    → Rate.one ≤ base
    → Rate.one ≤ ret
    → Rate.mul_if_odd exp base ret ≡ ok r
    → ret ≤ r
unfolding Rate.mul_if_odd
mul_if_odd_ge exp base ret r hb hr h = ground (arith, try_mul_ge ret base r hr hb)

pow_loop_ge :
    (exp : ℕ) (w : Acc ◌<◌ exp) (base ret r : Rate)
    → Rate.one ≤ base
    → Rate.one ≤ ret
    → Rate.pow_loop exp w base ret ≡ ok r
    → ret ≤ r
unfolding Rate.pow_loop
pow_loop_ge exp (Acc.intro _ smaller) base ret r hb hr h = grind (
  arith,
  λ (p : exp / 2 < exp) (b' ret' : Rate). pow_loop_ge (exp / 2) (smaller (exp / 2) p) b' ret' r,
  try_mul_ge base base,
  mul_if_odd_ge,
)

-- A rate of one or more, raised to any power, is again one or more whenever the loop returns.
pub try_pow_ge_one :
    (base : Rate) (exp : ℕ) (r : Rate)
    → Rate.one ≤ base
    → Rate.try_pow base exp ≡ ok r
    → Rate.one ≤ r
unfolding Rate.try_pow
try_pow_ge_one base exp r hb h =
    ground
      (arith, pow_loop_ge exp (lt_wf.apply exp) base (if exp % 2 == 0 then Rate.one else base) r hb)

pow_loop-one : (exp : ℕ) (w : Acc ◌<◌ exp) → Rate.pow_loop exp w Rate.one Rate.one ≡ ok Rate.one
unfolding Rate.pow_loop Rate.try_mul Rate.mul_if_odd
pow_loop-one exp (Acc.intro _ smaller) =
    grind (arith, λ (p : exp / 2 < exp). pow_loop-one (exp / 2) (smaller (exp / 2) p))

-- One to any power is one, and no intermediate product overflows.
pub try_pow-one : (exp : ℕ) → Rate.try_pow Rate.one exp ≡ ok Rate.one
unfolding Rate.try_pow
try_pow-one exp = ground (arith, pow_loop-one exp (lt_wf.apply exp))

square_large : (base : ℕ) → 2 ^ 64 ≤ base → 2 ^ 128 ≤ base * base
square_large base h = grind arith

square_overflows : (base : Rate) → 2 ^ 64 ≤ base → Rate.try_mul base base ≡ fail math_overflow
unfolding Rate.try_mul
square_overflows base h = ground (arith, square_large base h)

-- The loop squares the base once more than it needs: from 2^64 on (a rate of about 18.4) the power
-- one fails, though its value is the base.
pub try_pow_overshoots : (base : Rate) → 2 ^ 64 ≤ base → Rate.try_pow base 1 ≡ fail math_overflow
unfolding Rate.try_pow
try_pow_overshoots base h = rw (square_overflows base h)
