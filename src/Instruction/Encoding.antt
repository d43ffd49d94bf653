-- ===== src/Instruction/Encoding.antt =====
-- The bytes of each instruction, and that `unpack` reads exactly these (src/instruction.rs).
use mathlib.Core.List.{append_assoc}
use allwinprotocol.Base.{ℕ, ◌≡◌, refl, Bool, true, false, List, [], ◌∷◌, ◌++◌, arith, Fits}
use allwinprotocol.Error.{ok}
use allwinprotocol.State.Codec.{to_le_bytes, from_le_bytes}
use allwinprotocol.State.Codec.RoundTrip.{read-append}
use allwinprotocol.UnpackUtil.{unpack_bool, unpack_u64, unpack_bytes32, unpack_pubkey}
use allwinprotocol.Instruction.{
  PoolingInstruction, init_pooling_manager, set_pooling_manager_owner, init_pool, refresh_pool,
  deposit_pool_liquidity, redeem_pool_collateral, init_ticket, refresh_ticket, lottery_draw, unpack,
}

abbrev pub bool_byte : Bool → ℕ
bool_byte true = 1
bool_byte false = 0

-- The layout of instruction data: a tag, and the arguments in little-endian order.
abbrev pub encode : PoolingInstruction → List ℕ
encode (init_pooling_manager owner quote_currency) =
    0 ∷ (to_le_bytes 32 owner ++ to_le_bytes 32 quote_currency)
encode (set_pooling_manager_owner new_owner) = 1 ∷ to_le_bytes 32 new_owner
encode (init_pool config total_mining_speed kink_util_rate use_pyth_oracle) =
    2
    ∷ (to_le_bytes 8 total_mining_speed
        ++ (to_le_bytes 8 kink_util_rate ++ bool_byte use_pyth_oracle ∷ []))
encode refresh_pool = 3 ∷ []
encode (deposit_pool_liquidity liquidity_amount) = 4 ∷ to_le_bytes 8 liquidity_amount
encode (redeem_pool_collateral collateral_amount) = 5 ∷ to_le_bytes 8 collateral_amount
encode init_ticket = 6 ∷ []
encode refresh_ticket = 7 ∷ []
encode lottery_draw = 8 ∷ []

-- The arguments fit their bytes. A new pool always accepts deposits.
abbrev pub InRange : PoolingInstruction → Type 0
InRange (init_pooling_manager owner quote_currency) = Fits 256 owner × Fits 256 quote_currency
InRange (set_pooling_manager_owner new_owner) = Fits 256 new_owner
InRange (init_pool config total_mining_speed kink_util_rate use_pyth_oracle) =
    (config.deposit_paused ≡ false) × Fits 64 total_mining_speed × Fits 64 kink_util_rate
InRange (deposit_pool_liquidity liquidity_amount) = Fits 64 liquidity_amount
InRange (redeem_pool_collateral collateral_amount) = Fits 64 collateral_amount
InRange _ = Unit {0}

module _ (n : ℕ) (rest : List ℕ) where
  unpack_u64-append : Fits 64 n → unpack_u64 (to_le_bytes 8 n ++ rest) ≡ ok (n, rest)
  unfolding unpack_u64
  unpack_u64-append h =
      let (enough, value, left) = read-append 8 n rest h in rw (enough, value, left)

  unpack_pubkey-append : Fits 256 n → unpack_pubkey (to_le_bytes 32 n ++ rest) ≡ ok (n, rest)
  unfolding unpack_pubkey
  unpack_pubkey-append h =
      let (enough, value, left) = read-append 32 n rest h in rw (enough, value, left)

  unpack_bytes32-append : Fits 256 n → unpack_bytes32 (to_le_bytes 32 n ++ rest) ≡ ok (n, rest)
  unfolding unpack_bytes32
  unpack_bytes32-append h =
      let (enough, value, left) = read-append 32 n rest h in rw (enough, value, left)

unpack_bool-append : (b : Bool) (rest : List ℕ) → unpack_bool (bool_byte b ∷ rest) ≡ ok (b, rest)
unfolding unpack_bool from_le_bytes
unpack_bool-append true rest = ground arith
unpack_bool-append false rest = ground arith

-- `unpack` reads back every instruction whose arguments fit their widths (and whose configuration,
-- which is not encoded, is the default) from its bytes, whatever follows them.
pub unpack-encode :
    (i : PoolingInstruction) (rest : List ℕ) → InRange i → unpack (encode i ++ rest) ≡ ok i
unfolding unpack
unpack-encode (init_pooling_manager owner quote_currency) rest h = rw (
  append_assoc,
  unpack_pubkey-append owner (to_le_bytes 32 quote_currency ++ rest) h.0,
  unpack_bytes32-append quote_currency rest h.1,
)
unpack-encode (set_pooling_manager_owner new_owner) rest h =
    rw (unpack_pubkey-append new_owner rest h)
unpack-encode (init_pool config speed kink use_pyth_oracle) rest h =
    rw
      (
        append_assoc,
        unpack_u64-append speed ((to_le_bytes 8 kink ++ bool_byte use_pyth_oracle ∷ []) ++ rest)
            h.1,
        append_assoc,
        unpack_u64-append kink (bool_byte use_pyth_oracle ∷ rest) h.2,
        unpack_bool-append use_pyth_oracle rest,
      )
      (ground arith)
unpack-encode (deposit_pool_liquidity amount) rest h = rw (unpack_u64-append amount rest h)
unpack-encode (redeem_pool_collateral amount) rest h = rw (unpack_u64-append amount rest h)
unpack-encode _ rest h = refl
