-- ===== src/Processor/RefreshPool.antt =====
-- `process_refresh_reserve` (src/processor.rs): the oracle's price and the rewards up to the slot.
pub mod Effect
use allwinprotocol.Base.{not, List, ◌==◌}
use allwinprotocol.Error.{Result, invalid_account_owner, invalid_account_input, ◌>>=◌, ◌>>◌}
use allwinprotocol.State.Common.{Pubkey, Slot}
use allwinprotocol.State.Pool.{Pool}
use allwinprotocol.Processor.Runtime.{Ledger, AccountInfo, Runtime}
use allwinprotocol.Processor.Accounts.{reject_if, next_account_info, unpack_pool, pack_pool}
use allwinprotocol.Processor.Oracle.{get_pyth_price}
use allwinprotocol.Processor.Steps.{refresh_step}

module _ (rt : Runtime) where
  -- The pool, once its account and its oracle's have been checked, at the oracle's price
  unfoldable pub refreshed : Pubkey → Pubkey → Pubkey → Slot → Ledger → Result Pool
  unfolding unpack_pool get_pyth_price refresh_step
  refreshed program_id reserve_key oracle_key slot ledger = do
    reserve ← unpack_pool rt ledger reserve_key
    reject_if (not ((ledger reserve_key).owner == program_id)) invalid_account_owner
    reject_if (not (reserve.liquidity.pyth_oracle_pubkey == oracle_key)) invalid_account_input
    market_price ← get_pyth_price rt oracle_key ledger
    refresh_step reserve market_price slot

  unfoldable pub process_refresh_reserve : Pubkey → List AccountInfo → Ledger → Result Ledger
  unfolding next_account_info refreshed pack_pool
  process_refresh_reserve program_id accounts ledger = do
    (reserve_info, accounts) ← next_account_info rt accounts
    (oracle_info, accounts) ← next_account_info rt accounts
    (clock, _) ← next_account_info rt accounts
    slot ← rt.clock_slot clock ledger
    reserve ← refreshed program_id reserve_info.key oracle_info.key slot ledger
    pack_pool rt reserve reserve_info.key ledger
