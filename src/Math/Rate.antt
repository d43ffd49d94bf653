-- ===== src/Math/Rate.antt =====
-- `Rate` (src/math/rate.rs): a 128-bit word that counts units of 10^-18. A rate is its scaled value.
use mathlib.Core.Logic.{dite}
use mathlib.Core.WellFounded.{Acc}
use native.Mathlib.Decide.{dec_lt}
use allwinprotocol.Base.{
  ℕ, ◌*◌, ◌/◌, ◌%◌, ◌<◌, ◌==◌, if◌then◌else◌, try_from, checked_add, checked_sub, checked_mul,
  checked_div,
}
use allwinprotocol.Base.WellFounded.{lt_wf, half-lt}
use allwinprotocol.Error.{Result, ok, ok_or, math_overflow, ◌>>=◌}
use allwinprotocol.Math.Common.{wad, half_wad, percent_scaler}

abbrev pub Rate : Type 0
Rate = ℕ

abbrev pub one : Rate
one = wad

abbrev pub zero : Rate
zero = 0

-- `percent` is a u8, so the product stays within 64 bits.
unfoldable pub from_percent : ℕ → Rate
from_percent percent = percent * percent_scaler

-- The scaled value is the word itself.
abbrev pub to_scaled_val : Rate → ℕ
to_scaled_val r = r

abbrev pub from_scaled_val : ℕ → Rate
from_scaled_val scaled_val = scaled_val

unfoldable pub try_round_u64 : Rate → Result ℕ
try_round_u64 r = do
  rounded ← ok_or (checked_add 128 half_wad r) math_overflow
  rounded_val ← ok_or (checked_div rounded wad) math_overflow
  ok_or (try_from 64 rounded_val) math_overflow

-- `TryFrom<Decimal>`: `to_scaled_val` of the decimal, which is its value if that fits 128 bits.
unfoldable pub try_from_decimal : ℕ → Result Rate
try_from_decimal decimal = ok_or (try_from 128 decimal) math_overflow

unfoldable pub try_add : Rate → Rate → Result Rate
try_add a b = ok_or (checked_add 128 a b) math_overflow

unfoldable pub try_sub : Rate → Rate → Result Rate
try_sub a b = ok_or (checked_sub a b) math_overflow

-- `TryDiv<u64>`
unfoldable pub try_div_u64 : Rate → ℕ → Result Rate
try_div_u64 a b = ok_or (checked_div a b) math_overflow

-- `TryDiv<Rate>`
unfoldable pub try_div : Rate → Rate → Result Rate
try_div a b = do
  scaled ← ok_or (checked_mul 128 a wad) math_overflow
  ok_or (checked_div scaled b) math_overflow

-- `TryMul<u64>`
unfoldable pub try_mul_u64 : Rate → ℕ → Result Rate
try_mul_u64 a b = ok_or (checked_mul 128 a b) math_overflow

-- `TryMul<Rate>`
unfoldable pub try_mul : Rate → Rate → Result Rate
try_mul a b = do
  product ← ok_or (checked_mul 128 a b) math_overflow
  ok_or (checked_div product wad) math_overflow

-- `if exp % 2 != 0 { ret = ret.try_mul(base)?; }`
unfoldable pub mul_if_odd : ℕ → Rate → Rate → Result Rate
mul_if_odd exp base ret = if exp % 2 == 0 then ok ret else try_mul ret base

-- `while exp > 0`
unfoldable pub pow_loop : (exp : ℕ) → Acc ◌<◌ exp → Rate → Rate → Result Rate
pow_loop exp (Acc.intro _ smaller) base ret =
    dite (dec_lt 0 exp)
      (λ more. do
        squared ← try_mul base base
        ret' ← mul_if_odd (exp / 2) squared ret
        pow_loop (exp / 2) (smaller (exp / 2) (half-lt exp more)) squared ret')
      (λ _. ok ret)

unfoldable pub try_pow : Rate → ℕ → Result Rate
unfolding pow_loop lt_wf dec_lt
try_pow base exp = pow_loop exp (lt_wf.apply exp) base (if exp % 2 == 0 then one else base)
