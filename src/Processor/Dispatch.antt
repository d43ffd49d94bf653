-- ===== src/Processor/Dispatch.antt =====
-- `process_instruction` (src/processor.rs): the program's entry, from the bytes of an instruction to
-- its handler. An instruction that fails leaves the ledger as it was, since the runtime drops its
-- writes: it returns none here.
use allwinprotocol.Base.{ℕ, List}
use allwinprotocol.Error.{Result, ◌>>=◌}
use allwinprotocol.State.Common.{Pubkey}
use allwinprotocol.Instruction
use allwinprotocol.Instruction.{
  PoolingInstruction, init_pooling_manager, set_pooling_manager_owner, init_pool, refresh_pool,
  deposit_pool_liquidity, redeem_pool_collateral, init_ticket, refresh_ticket, lottery_draw,
}
use allwinprotocol.Processor.Runtime.{Ledger, AccountInfo, Runtime}
use allwinprotocol.Processor.InitPoolManager.{
  process_init_pool_manager, process_set_pool_manager_owner, process_lottery_draw,
}
use allwinprotocol.Processor.InitPool.{process_init_pool}
use allwinprotocol.Processor.InitTicket.{process_init_ticket}
use allwinprotocol.Processor.RefreshPool.{process_refresh_reserve}
use allwinprotocol.Processor.RefreshTicket.{process_refresh_ticket}
use allwinprotocol.Processor.Deposit.{process_deposit_pool_liquidity}
use allwinprotocol.Processor.Redeem.{process_redeem_pool_collateral}

module _ (rt : Runtime) (program_id : Pubkey) (accounts : List AccountInfo) where
  -- The match on the instruction
  unfoldable pub dispatch : PoolingInstruction → Ledger → Result Ledger
  unfolding process_init_pool_manager process_set_pool_manager_owner process_lottery_draw
      process_init_pool process_init_ticket process_refresh_reserve process_refresh_ticket
      process_deposit_pool_liquidity process_redeem_pool_collateral
  dispatch (init_pooling_manager owner quote_currency) ledger =
      process_init_pool_manager rt program_id owner quote_currency accounts ledger
  dispatch (init_pool config total_mining_speed kink_util_rate use_pyth_oracle) ledger =
      process_init_pool rt program_id accounts ledger config total_mining_speed kink_util_rate
        use_pyth_oracle
  dispatch init_ticket ledger = process_init_ticket rt program_id accounts ledger
  dispatch (deposit_pool_liquidity liquidity_amount) ledger =
      process_deposit_pool_liquidity rt program_id liquidity_amount accounts ledger
  dispatch (redeem_pool_collateral collateral_amount) ledger =
      process_redeem_pool_collateral rt program_id collateral_amount accounts ledger
  dispatch refresh_pool ledger = process_refresh_reserve rt program_id accounts ledger
  dispatch (set_pooling_manager_owner new_owner) ledger =
      process_set_pool_manager_owner program_id new_owner accounts ledger
  dispatch refresh_ticket ledger = process_refresh_ticket rt program_id accounts ledger
  dispatch lottery_draw ledger = process_lottery_draw program_id accounts ledger

  unfoldable pub process_instruction : List ℕ → Ledger → Result Ledger
  unfolding Instruction.unpack dispatch
  process_instruction input ledger =
      Instruction.unpack input >>= λ instruction. dispatch instruction ledger
