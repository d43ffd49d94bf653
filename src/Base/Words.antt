-- ===== src/Base/Words.antt =====
-- The checked operations of fixed-width unsigned integers, at a width in bits: those of u8, u64 and
-- u128, and of the 128- and 192-bit integers that `construct_uint!` makes.
use Prim.Native.Nat.{ℕ, ◌+◌, ◌-◌, ◌*◌, ◌/◌, ◌^◌, ◌<◌}
use mathlib.Core.Option.{Option, none, some}
use allwinprotocol.Base.Tests.{ltb, leb, ◌==◌, if◌then◌else◌}

abbrev pub Fits : ℕ → ℕ → Type 0
Fits w n = n < 2 ^ w

-- `try_from` into `w` bits
abbrev pub try_from : ℕ → ℕ → Option ℕ
try_from w n = if ltb n (2 ^ w) then some n else none

abbrev pub checked_add : ℕ → ℕ → ℕ → Option ℕ
checked_add w a b = try_from w (a + b)

abbrev pub checked_sub : ℕ → ℕ → Option ℕ
checked_sub a b = if leb b a then some (a - b) else none

abbrev pub checked_mul : ℕ → ℕ → ℕ → Option ℕ
checked_mul w a b = try_from w (a * b)

abbrev pub checked_div : ℕ → ℕ → Option ℕ
checked_div a b = if b == 0 then none else some (a / b)

abbrev pub checked_pow : ℕ → ℕ → ℕ → Option ℕ
checked_pow w a b = try_from w (a ^ b)

abbrev pub u64_max : ℕ
u64_max = 0xffff_ffff_ffff_ffff
