-- ===== src/Tests/Numbers.antt =====
-- The arithmetic theorems at concrete inputs.
use allwinprotocol.Base.{◌^◌, ◌*◌, ◌≤◌, ◌≡◌, refl, arith, ltb, if◌then◌else◌, true}
use allwinprotocol.Error.{ok, fail, math_overflow}
use allwinprotocol.Math.Common.{wad}
use allwinprotocol.Math.Rate
use allwinprotocol.Math.Pow.Bound.{try_pow_le}
use allwinprotocol.Math.Pow.{try_pow-one, try_pow_overshoots}
use allwinprotocol.State.LastUpdate

-- 1.1 cubed
power : Rate.try_pow 1_100_000_000_000_000_000 3 ≡ ok 1_331_000_000_000_000_000
unfolding Rate.try_pow Rate.try_mul Rate.mul_if_odd
power = refl

-- 1.1 to the third power
try_pow_le_example : 1_331_000_000_000_000_000 * wad ^ 3 ≤ 1_100_000_000_000_000_000 ^ 3 * wad
try_pow_le_example = try_pow_le 1_100_000_000_000_000_000 3 1_331_000_000_000_000_000 power

try_pow-one_example : Rate.try_pow Rate.one 63_072_000 ≡ ok Rate.one
try_pow-one_example = try_pow-one 63_072_000

try_pow_overshoots_example : Rate.try_pow (20 * wad) 1 ≡ fail math_overflow
try_pow_overshoots_example = try_pow_overshoots (20 * wad) (omega arith)

abbrev last : LastUpdate.LastUpdate
last = record { slot = 7; stale = true }

is_stale_fresh_example :
    (LastUpdate.is_stale (LastUpdate.update_slot last 100) 101
      ≡ (if ltb 101 100 then fail math_overflow else ok (ltb 100 101)))
    × (LastUpdate.is_stale (LastUpdate.mark_stale (LastUpdate.update_slot last 100)) 101 ≡ ok true)
is_stale_fresh_example = LastUpdate.is_stale_fresh last 100 101
