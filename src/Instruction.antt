-- ===== src/Instruction.antt =====
-- The instructions of the program and how they are read (src/instruction.rs).
pub mod Encoding
pub mod Decoding
use allwinprotocol.Base.{ℕ, Bool, false, List, [], ◌∷◌, ◌==◌, if◌then◌else◌}
use allwinprotocol.Error.{Result, ok, fail, instruction_unpack_error, ◌>>=◌}
use allwinprotocol.State.Common.{Pubkey}
use allwinprotocol.State.Pool.{PoolConfig}
use allwinprotocol.UnpackUtil.{unpack_bool, unpack_u64, unpack_bytes32, unpack_pubkey}

pub data PoolingInstruction : Type 0 where
  init_pooling_manager : (owner : Pubkey) (quote_currency : ℕ) → PoolingInstruction
  set_pooling_manager_owner : (new_owner : Pubkey) → PoolingInstruction
  init_pool :
      (config : PoolConfig) (total_mining_speed kink_util_rate : ℕ) (use_pyth_oracle : Bool)
      → PoolingInstruction
  refresh_pool : PoolingInstruction
  deposit_pool_liquidity : (liquidity_amount : ℕ) → PoolingInstruction
  redeem_pool_collateral : (collateral_amount : ℕ) → PoolingInstruction
  init_ticket : PoolingInstruction
  refresh_ticket : PoolingInstruction
  lottery_draw : PoolingInstruction

-- The match on the tag byte.
unfoldable pub unpack_tag : ℕ → List ℕ → Result PoolingInstruction
unpack_tag tag rest =
    if tag == 0
    then (do
      (owner, rest') ← unpack_pubkey rest
      (quote_currency, _) ← unpack_bytes32 rest'
      ok (init_pooling_manager owner quote_currency))
    else if tag == 1
    then (do (new_owner, _) ← unpack_pubkey rest; ok (set_pooling_manager_owner new_owner))
    else if tag == 2
    then (do
      (total_mining_speed, rest') ← unpack_u64 rest
      (kink_util_rate, rest'') ← unpack_u64 rest'
      (use_pyth_oracle, _) ← unpack_bool rest''
      ok (
          init_pool (record { deposit_paused = false }) total_mining_speed kink_util_rate
            use_pyth_oracle))
    else if tag == 3
    then ok refresh_pool
    else if tag == 4
    then (do (liquidity_amount, _) ← unpack_u64 rest; ok (deposit_pool_liquidity liquidity_amount))
    else if tag == 5
    then (do
      (collateral_amount, _) ← unpack_u64 rest
      ok (redeem_pool_collateral collateral_amount))
    else if tag == 6
    then ok init_ticket
    else if tag == 7
    then ok refresh_ticket
    else if tag == 8
    then ok lottery_draw
    else fail instruction_unpack_error

unfoldable pub unpack : List ℕ → Result PoolingInstruction
unfolding unpack_tag
unpack [] = fail instruction_unpack_error
unpack (tag ∷ rest) = unpack_tag tag rest
