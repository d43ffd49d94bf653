-- ===== src/Math/Rounding.antt =====
-- Rounding and truncation of the decimal operations (src/math/decimal.rs).
use allwinprotocol.Base.{ℕ, ◌+◌, ◌*◌, ◌/◌, ◌≤◌, ◌<◌, ◌≡◌, arith, Fits}
use allwinprotocol.Error.{ok}
use allwinprotocol.Math.Common.{wad, half_wad}
use allwinprotocol.Math.Decimal
use allwinprotocol.Math.Decimal.{Decimal}

-- Where `try_mul` returns, the product of the scaled values fits 192 bits, and the result is that
-- product over 10^18, rounded down.
pub try_mul_floor :
    (a b c : Decimal)
    → Decimal.try_mul a b ≡ ok c
    → Fits 192 (a * b) × (c * wad ≤ a * b) × (a * b < (c + 1) * wad)
unfolding Decimal.try_mul
try_mul_floor a b c h = ground arith

-- Where `try_div` returns, the divisor is not zero, the dividend scaled by 10^18 once more fits 192
-- bits, and the result is the quotient, rounded down.
pub try_div_floor :
    (a b c : Decimal)
    → Decimal.try_div a b ≡ ok c
    → Fits 192 (a * wad) × (0 < b) × (c * b ≤ a * wad) × (a * wad < (c + 1) * b)
unfolding Decimal.try_div
try_div_floor a b c h = ground arith

-- Where a decimal plus one fits 192 bits and rounding it up succeeds, the other two roundings
-- succeed as well, and the three are ordered and at most one apart.
pub roundings_ordered :
    (d : Decimal) {up : ℕ}
    → Fits 192 (d + wad)
    → Decimal.try_ceil_u64 d ≡ ok up
    → (down near : ℕ) × (Decimal.try_floor_u64 d ≡ ok down)
      × (Decimal.try_round_u64 d ≡ ok near)
      × (down ≤ near)
      × (near ≤ up)
      × (up ≤ down + 1)
unfolding Decimal.try_ceil_u64 Decimal.try_floor_u64 Decimal.try_round_u64
roundings_ordered d f h = (
  d / wad,
  (d + half_wad) / wad,
  ground arith,
  ground arith,
  ground arith,
  ground arith,
  ground arith,
)

-- A whole number of 64 bits, made a decimal, comes back from each of the three roundings.
pub from_u64_exact :
    (n : ℕ)
    → Fits 64 n
    → (Decimal.try_floor_u64 (Decimal.from_u64 n) ≡ ok n)
      × (Decimal.try_round_u64 (Decimal.from_u64 n) ≡ ok n)
      × (Decimal.try_ceil_u64 (Decimal.from_u64 n) ≡ ok n)
unfolding Decimal.try_ceil_u64 Decimal.try_floor_u64 Decimal.try_round_u64 Decimal.from_u64
from_u64_exact n h = (ground arith, ground arith, ground arith)
