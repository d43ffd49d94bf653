-- ===== src/Math/Decimal.antt =====
-- `Decimal` (src/math/decimal.rs): a 192-bit word that counts units of 10^-18. A decimal is its
-- scaled value. A `u128` times `wad` stays below 2^192, so `from_u128` cannot overflow.
use allwinprotocol.Base.{ℕ, ◌*◌, try_from, checked_add, checked_sub, checked_mul, checked_div}
use allwinprotocol.Error.{Result, ok_or, math_overflow, ◌>>=◌}
use allwinprotocol.Math.Common.{wad, half_wad, percent_scaler}
use allwinprotocol.Math.Rate.{Rate}

abbrev pub Decimal : Type 0
Decimal = ℕ

abbrev pub one : Decimal
one = wad

abbrev pub zero : Decimal
zero = 0

-- `percent` is a u8, so the product stays within 64 bits.
unfoldable pub from_percent : ℕ → Decimal
from_percent percent = percent * percent_scaler

unfoldable pub to_scaled_val : Decimal → Result ℕ
to_scaled_val d = ok_or (try_from 128 d) math_overflow

abbrev pub from_scaled_val : ℕ → Decimal
from_scaled_val scaled_val = scaled_val

unfoldable pub try_round_u64 : Decimal → Result ℕ
try_round_u64 d = do
  rounded ← ok_or (checked_add 192 half_wad d) math_overflow
  rounded_val ← ok_or (checked_div rounded wad) math_overflow
  ok_or (try_from 64 rounded_val) math_overflow

unfoldable pub try_ceil_u64 : Decimal → Result ℕ
try_ceil_u64 d = do
  below ← ok_or (checked_sub wad 1) math_overflow
  raised ← ok_or (checked_add 192 below d) math_overflow
  ceil_val ← ok_or (checked_div raised wad) math_overflow
  ok_or (try_from 64 ceil_val) math_overflow

unfoldable pub try_floor_u64 : Decimal → Result ℕ
try_floor_u64 d = do
  floor_val ← ok_or (checked_div d wad) math_overflow
  ok_or (try_from 64 floor_val) math_overflow

-- `From<u64>`
unfoldable pub from_u64 : ℕ → Decimal
from_u64 val = wad * val

-- `From<u128>`
unfoldable pub from_u128 : ℕ → Decimal
from_u128 val = wad * val

-- `From<Rate>`
abbrev pub from_rate : Rate → Decimal
from_rate val = val

unfoldable pub try_add : Decimal → Decimal → Result Decimal
try_add a b = ok_or (checked_add 192 a b) math_overflow

unfoldable pub try_sub : Decimal → Decimal → Result Decimal
try_sub a b = ok_or (checked_sub a b) math_overflow

-- `TryDiv<u64>`
unfoldable pub try_div_u64 : Decimal → ℕ → Result Decimal
try_div_u64 a b = ok_or (checked_div a b) math_overflow

-- `TryDiv<Decimal>`
unfoldable pub try_div : Decimal → Decimal → Result Decimal
try_div a b = do
  scaled ← ok_or (checked_mul 192 a wad) math_overflow
  ok_or (checked_div scaled b) math_overflow

-- `TryDiv<Rate>`
unfoldable pub try_div_rate : Decimal → Rate → Result Decimal
unfolding try_div
try_div_rate a b = try_div a (from_rate b)

-- `TryMul<u64>`
unfoldable pub try_mul_u64 : Decimal → ℕ → Result Decimal
try_mul_u64 a b = ok_or (checked_mul 192 a b) math_overflow

-- `TryMul<Decimal>`
unfoldable pub try_mul : Decimal → Decimal → Result Decimal
try_mul a b = do
  product ← ok_or (checked_mul 192 a b) math_overflow
  ok_or (checked_div product wad) math_overflow

-- `TryMul<Rate>`
unfoldable pub try_mul_rate : Decimal → Rate → Result Decimal
unfolding try_mul
try_mul_rate a b = try_mul a (from_rate b)
