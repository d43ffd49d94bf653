-- ===== src/State/Codec.antt =====
-- Bytes and fields of a packed account (the helpers of src/state/mod.rs, and the `arrayref` macros).
-- Every field, keys included, is the number that its bytes spell in little-endian order.
pub mod RoundTrip
use allwinprotocol.Base.{
  ℕ, zero, suc, ◌+◌, ◌*◌, ◌/◌, ◌%◌, Bool, true, false, Option, none, some, List, [], ◌∷◌, ◌++◌,
  take, drop, try_from,
}
use allwinprotocol.Error.{Result, ok, err, panic, invalid_account_data}
use allwinprotocol.Math.Decimal
use allwinprotocol.Math.Decimal.{Decimal}

-- `to_le_bytes`, at a number of bytes
unfoldable pub to_le_bytes : ℕ → ℕ → List ℕ
to_le_bytes zero n = []
to_le_bytes (suc k) n = (n % 256) ∷ to_le_bytes k (n / 256)

unfoldable pub from_le_bytes : List ℕ → ℕ
from_le_bytes [] = 0
from_le_bytes (b ∷ bs) = b + 256 * from_le_bytes bs

-- `array_refs!`: the fields of the given widths, one after the other. What follows is padding.
unfoldable pub array_refs : List ℕ → List ℕ → List ℕ
array_refs [] input = []
array_refs (w ∷ ws) input = from_le_bytes (take w input) ∷ array_refs ws (drop w input)

-- `mut_array_refs!` and the assignments to its fields: what is written over the first bytes.
unfoldable pub write_fields : List (ℕ × ℕ) → List ℕ
write_fields [] = []
write_fields ((w, n) ∷ fields) = to_le_bytes w n ++ write_fields fields

-- A decimal takes 16 bytes, and one that does not fit them panics.
unfoldable pub pack_decimal : Decimal → Result ℕ
unfolding Decimal.to_scaled_val
pack_decimal decimal = elim (Decimal.to_scaled_val decimal) [ ok scaled ↦ ok scaled | _ ↦ panic ]

unfoldable pub unpack_decimal : ℕ → Decimal
unpack_decimal src = Decimal.from_scaled_val src

unfoldable pub pack_bool : Bool → ℕ
pack_bool true = 1
pack_bool false = 0

unfoldable pub unpack_bool : ℕ → Result Bool
unpack_bool zero = ok false
unpack_bool (suc zero) = ok true
unpack_bool (suc (suc _)) = err invalid_account_data

-- `u8::try_from(len).unwrap()`
unfoldable pub unwrap_u8 : ℕ → Result ℕ
unwrap_u8 n = elim (try_from 8 n) [ none ↦ panic | some m ↦ ok m ]
