-- ===== src/Processor/Oracle/MarketPrice.antt =====
-- The oracle's price and its exponent (`get_pyth_price` of src/processor.rs).
use native.Mathlib.Nat.{pow-le-pow_right, mul-le-mul_left, one-le-pow}
use allwinprotocol.Base.{
  ℕ, ◌+◌, ◌*◌, ◌/◌, ◌^◌, ◌≤◌, ◌<◌, ◌≡◌, refl, arith, Fits, ltb, leb, dec_lt, if◌then◌else◌,
}
use allwinprotocol.Base.Integers.{ℤ, pos, negsuc}
use allwinprotocol.Error.{ok, fail, math_overflow, invalid_oracle_config}
use allwinprotocol.Math.Common.{wad}
use allwinprotocol.Processor.Runtime.{price_type, unknown_type}
use allwinprotocol.Processor.Oracle.{to_price, scale_price, market_price_of}

power_fits : (e : ℕ) → e ≤ 19 → 10 ^ e ≤ 10 ^ 19
power_fits e h = pow-le-pow_right {n = 10} (omega arith) h

scaled_fits : (n p : ℕ) → Fits 64 n → p ≤ 10 ^ 19 → Fits 192 (wad * n * p)
scaled_fits n p f h = omega (arith, mul-le-mul_left (wad * n) h)

power_overflows : (e : ℕ) → 19 < e → 2 ^ 64 ≤ 10 ^ e
power_overflows e h =
    let le : 20 ≤ e = omega arith in omega (arith, pow-le-pow_right {n = 10} (omega arith) le)

above :
    (n e : ℕ)
    → Fits 64 n
    → scale_price n (pos e) ≡ (if leb e 19 then ok (wad * n * 10 ^ e) else fail math_overflow)
unfolding scale_price
above n e f = elim (dec_lt 19 e) [
  | yes large ↦ ground (arith, power_overflows e large)
  | no small ↦
      ground
        (arith, power_fits e (omega arith), scaled_fits n (10 ^ e) f (power_fits e (omega arith)))
]

below :
    (n e : ℕ)
    → Fits 64 n
    → scale_price n (negsuc e)
      ≡ (if ltb e 19 then ok (wad * n / 10 ^ (e + 1)) else fail math_overflow)
unfolding scale_price
below n e f = elim (dec_lt 19 (e + 1)) [
  | yes large ↦ ground (arith, power_overflows (e + 1) large)
  | no small ↦ ground (arith, power_fits (e + 1) (omega arith), one-le-pow (e + 1) 10 (omega arith))
]

-- A price of at most 64 bits, not negative, is scaled by its exponent: exactly for an exponent from
-- 0 to 19, rounded down for one from -1 to -19, and with MathOverflow beyond. A negative price, and
-- one whose type is unknown, give InvalidOracleConfig.
pub market_price_of_exact :
    (n e : ℕ) (price expo : ℤ)
    → Fits 64 n
    → (market_price_of (record { ptype = price_type; price = pos n; expo = pos e })
        ≡ (if leb e 19 then ok (wad * n * 10 ^ e) else fail math_overflow))
      × (market_price_of (record { ptype = price_type; price = pos n; expo = negsuc e })
          ≡ (if ltb e 19 then ok (wad * n / 10 ^ (e + 1)) else fail math_overflow))
      × (market_price_of (record { ptype = price_type; price = negsuc n; expo = expo })
          ≡ fail invalid_oracle_config)
      × (market_price_of (record { ptype = unknown_type; price = price; expo = expo })
          ≡ fail invalid_oracle_config)
unfolding market_price_of to_price
market_price_of_exact n e price expo f =
    (ground (arith, above n e f), ground (arith, below n e f), refl, refl)
