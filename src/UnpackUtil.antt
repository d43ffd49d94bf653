-- ===== src/UnpackUtil.antt =====
-- The readers of instruction data (src/unpack_util.rs): each takes its bytes off the front and returns
-- the rest. Keys and 32-byte arrays are the numbers that their bytes spell in little-endian order.
use allwinprotocol.Base.{ℕ, Bool, true, false, List, ltb, ◌==◌, if◌then◌else◌, take, drop, length}
use allwinprotocol.Error.{
  Result, ok, err, fail, invalid_account_data, instruction_unpack_error, ◌>>=◌,
}
use allwinprotocol.Math.Decimal
use allwinprotocol.Math.Decimal.{Decimal}
use allwinprotocol.State.Common.{Pubkey}
use allwinprotocol.State.Codec.{from_le_bytes}

abbrev pub pubkey_bytes : ℕ
pubkey_bytes = 32

unfoldable pub unpack_u8 : List ℕ → Result (ℕ × List ℕ)
unpack_u8 input =
    if length input == 0
    then fail instruction_unpack_error
    else ok (from_le_bytes (take 1 input), drop 1 input)

unfoldable pub bool_of_u8 : ℕ → Result Bool
bool_of_u8 value =
    if value == 0 then ok false else if value == 1 then ok true else err invalid_account_data

unfoldable pub unpack_bool : List ℕ → Result (Bool × List ℕ)
unfolding unpack_u8 bool_of_u8
unpack_bool input = do (value, rest) ← unpack_u8 input; result ← bool_of_u8 value; ok (result, rest)

unfoldable pub unpack_decimal : List ℕ → Result (Decimal × List ℕ)
unpack_decimal input =
    if ltb (length input) 16
    then fail instruction_unpack_error
    else ok (Decimal.from_scaled_val (from_le_bytes (take 16 input)), drop 16 input)

unfoldable pub unpack_u64 : List ℕ → Result (ℕ × List ℕ)
unpack_u64 input =
    if ltb (length input) 8
    then fail instruction_unpack_error
    else ok (from_le_bytes (take 8 input), drop 8 input)

unfoldable pub unpack_bytes32 : List ℕ → Result (ℕ × List ℕ)
unpack_bytes32 input =
    if ltb (length input) 32
    then fail instruction_unpack_error
    else ok (from_le_bytes (take 32 input), drop 32 input)

unfoldable pub unpack_pubkey : List ℕ → Result (Pubkey × List ℕ)
unpack_pubkey input =
    if ltb (length input) pubkey_bytes
    then fail instruction_unpack_error
    else ok (from_le_bytes (take 32 input), drop 32 input)
