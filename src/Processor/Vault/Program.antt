-- ===== src/Processor/Vault/Program.antt =====
-- The whole program (`process_instruction` of src/processor.rs) as steps of the vault, and the ledgers
-- that it and the other programs reach.
use allwinprotocol.Base.{refl, ℕ, ◌≡◌, ◌≢◌, refl, List}
use allwinprotocol.Error.{ok, >>=-eq-ok}
use allwinprotocol.State.Common.{Pubkey}
use allwinprotocol.Instruction
use allwinprotocol.Instruction.{PoolingInstruction}
use allwinprotocol.Processor.Runtime.{Ledger, AccountInfo, Runtime, RuntimeLaws, PackLaws, CallLaws}
use allwinprotocol.Processor.InitPoolManager.{process_set_pool_manager_owner, process_lottery_draw}
use allwinprotocol.Processor.Dispatch.{dispatch, process_instruction}
use allwinprotocol.Processor.Vault.{funds, IsSound, KeepsPools, VaultStep}
use allwinprotocol.Processor.Vault.Steps.{IsStep, idle-IsStep}
use allwinprotocol.Processor.Vault.Exchanges.{process_deposit-IsStep, process_redeem-IsStep}
use allwinprotocol.Processor.Vault.Refreshes.{
  process_refresh_reserve-IsStep, process_refresh_ticket-IsStep, process_init_ticket-IsStep,
  process_init_pool_manager-IsStep,
}
use allwinprotocol.Processor.Vault.Opening.{process_init_pool-IsStep}

module _ (rt : Runtime) (program_id : Pubkey) (laws : RuntimeLaws rt) (packs : PackLaws rt)
    (calls : CallLaws rt) (foreign : program_id ≢ rt.spl_token_id) where
  pub dispatch-IsStep :
      (accounts : List AccountInfo) (i : PoolingInstruction) (ledger ledger' : Ledger)
      → IsSound rt program_id ledger
      → dispatch rt program_id accounts i ledger ≡ ok ledger'
      → IsStep rt program_id i ledger ledger'
  unfolding dispatch process_set_pool_manager_owner process_lottery_draw
  dispatch-IsStep accounts (Instruction.init_pooling_manager owner currency) ledger ledger' sound
        h =
      process_init_pool_manager-IsStep rt program_id packs owner currency accounts ledger ledger'
        sound h
  dispatch-IsStep accounts (Instruction.set_pooling_manager_owner owner) ledger ledger' sound h =
      let same : ledger ≡ ledger' = cc in
      idle-IsStep rt program_id (Instruction.set_pooling_manager_owner owner) ledger ledger' sound
        refl (λ k. rw same refl)
  dispatch-IsStep accounts (Instruction.init_pool config speed kink pyth) ledger ledger' sound h =
      process_init_pool-IsStep rt program_id packs accounts ledger ledger' config speed kink pyth
        sound h
  dispatch-IsStep accounts Instruction.refresh_pool ledger ledger' sound h =
      process_refresh_reserve-IsStep rt program_id packs accounts ledger ledger' sound h
  dispatch-IsStep accounts (Instruction.deposit_pool_liquidity n) ledger ledger' sound h =
      process_deposit-IsStep rt program_id laws packs calls foreign n accounts ledger ledger' sound
        h
  dispatch-IsStep accounts (Instruction.redeem_pool_collateral n) ledger ledger' sound h =
      process_redeem-IsStep rt program_id laws packs calls foreign n accounts ledger ledger' sound h
  dispatch-IsStep accounts Instruction.init_ticket ledger ledger' sound h =
      process_init_ticket-IsStep rt program_id packs accounts ledger ledger' sound h
  dispatch-IsStep accounts Instruction.refresh_ticket ledger ledger' sound h =
      process_refresh_ticket-IsStep rt program_id packs accounts ledger ledger' sound h
  dispatch-IsStep accounts Instruction.lottery_draw ledger ledger' sound h =
      let same : ledger ≡ ledger' = cc in
      idle-IsStep rt program_id Instruction.lottery_draw ledger ledger' sound refl
        (λ k. rw same refl)

  -- Let the program not be the token program, and let `Pack`, the calls of the token program and the
  -- amounts of its accounts be as documented. From a ledger in which every pool has the current
  -- version, a share for each token, and nothing lent or claimed, every input that is processed with
  -- success, whatever its bytes and accounts, is an instruction and leads to such a ledger, in which
  -- each pool from before is still there, with the same manager, mints, oracle, and accounts for
  -- tokens, fees and shares. Seen as the tokens of each pool, an instruction InitPool opens one pool
  -- without tokens where there was none; a deposit pays what was asked into one pool, and a
  -- redemption takes it out of one pool that holds at least this much, where the largest 64-bit
  -- number leaves the amount open; and no other instruction moves tokens.
  pub process_instruction-VaultStep :
      (accounts : List AccountInfo) (input : List ℕ) (ledger ledger' : Ledger)
      → IsSound rt program_id ledger
      → process_instruction rt program_id accounts input ledger ≡ ok ledger'
      → IsSound rt program_id ledger'
        × KeepsPools rt program_id ledger ledger'
        × ((i : PoolingInstruction) × (Instruction.unpack input ≡ ok i)
            × VaultStep i (funds rt program_id ledger) (funds rt program_id ledger'))
  unfolding process_instruction
  process_instruction-VaultStep accounts input ledger ledger' sound h =
      let (i, read, runs) = >>=-eq-ok (Instruction.unpack input) _ h in
      let (sound', kept, taken) = dispatch-IsStep accounts i ledger ledger' sound runs in
      (sound', kept, (i, read, taken))
