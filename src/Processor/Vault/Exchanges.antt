-- ===== src/Processor/Vault/Exchanges.antt =====
-- Deposits and redemptions (src/processor.rs) as steps of the vault.
use allwinprotocol.Base.{
  ℕ, ◌+◌, ◌-◌, ◌≡◌, ◌≢◌, refl, ◌∙◌, arith, some, List, ◌==◌, if◌then◌else◌, u64_max,
}
use allwinprotocol.Error.{ok, >>=-eq-ok, invalid_amount}
use allwinprotocol.State.Common.{Pubkey, Slot}
use allwinprotocol.State.Pool.{Pool}
use allwinprotocol.State.Pool.Principal.{with_funds}
use allwinprotocol.State.Pool.Repack.{keys}
use allwinprotocol.Instruction.{deposit_pool_liquidity, redeem_pool_collateral}
use allwinprotocol.Processor.Runtime.{Ledger, AccountInfo, Runtime, RuntimeLaws, PackLaws, CallLaws}
use allwinprotocol.Processor.Principal.{stale}
use allwinprotocol.Processor.Exchange.{ExchangeAccounts, take_accounts, reject_if-eq-ok}
use allwinprotocol.Processor.Deposit.{
  process_deposit_pool_liquidity, process_deposit_pool_liquidity-IsDeposit,
  check_deposit-IsAuthorised, process_deposit-stages, IsDeposit,
}
use allwinprotocol.Processor.Redeem.{
  process_redeem_pool_collateral, process_redeem_pool_collateral-IsRedemption,
  check_redeem-IsAuthorised, process_redeem-stages, IsRedemption,
}
use allwinprotocol.Processor.Vault.{pool_at, IsRequested, IsSound, IsSoundPool}
use allwinprotocol.Processor.Vault.Storage.{pool_at-some}
use allwinprotocol.Processor.Vault.Stores.{pack_pool-pool_at}
use allwinprotocol.Processor.Vault.Calls.{
  user_transfer-pool_at, user_burn-pool_at, pool_transfer-pool_at, pool_mint_to-pool_at,
}
use allwinprotocol.Processor.Vault.Steps.{IsStep, pays-IsStep, takes-IsStep}

all_or_asked-IsRequested :
    (asked balance amount : ℕ)
    → amount ≡ (if asked == u64_max then balance else asked)
    → IsRequested asked amount
all_or_asked-IsRequested asked balance amount h other = ground arith

module _ (rt : Runtime) (program_id : Pubkey) (laws : RuntimeLaws rt) (packs : PackLaws rt)
    (calls : CallLaws rt) (foreign : program_id ≢ rt.spl_token_id) where
  -- The pool that a deposit leaves: it has the accounts of the pool before, and `amount` more tokens.
  pub deposit-stored :
      (a : ExchangeAccounts) (slot : Slot) (asked : ℕ) (ledger ledger' : Ledger) (p : Pool)
      → IsSoundPool p
      → (d : IsDeposit rt program_id a slot asked ledger ledger' p)
      → (q : Pool) × IsSoundPool q
        × (q.liquidity.available_amount ≡ p.liquidity.available_amount + d.amount)
        × (keys q ≡ keys p)
        × ((k : Pubkey)
            → pool_at rt program_id ledger' k
              ≡ (if k == a.reserve then some q else pool_at rt program_id ledger k))
  deposit-stored a slot asked ledger ledger' p sound_p d =
      let after = stale (with_funds p (p.liquidity.available_amount + d.amount)) in
      let (q, sound_q, same, keyed, stored) =
        pack_pool-pool_at rt program_id packs after a.reserve ledger d.packed
          d.authorised.reserve_owned sound_p.version d.backed d.stored in
      let paid =
        user_transfer-pool_at rt program_id calls foreign a.token_program a.source
          a.liquidity_supply a.user_authority d.amount d.packed d.paid d.taken in
      let minted =
        pool_mint_to-pool_at rt program_id calls foreign a.token_program a.collateral_mint
          a.destination a.manager_authority d.amount a.manager d.manager.bump_seed d.paid ledger'
          d.minted in
      (q, sound_q, same, keyed ∙ sound_p.keyed, λ k. minted k ∙ paid k ∙ stored k)

  -- The pool that a redemption leaves: it has the accounts of the pool before, and `amount` tokens less.
  pub redemption-stored :
      (a : ExchangeAccounts) (slot : Slot) (asked : ℕ) (ledger ledger' : Ledger) (p : Pool)
      → IsSoundPool p
      → (d : IsRedemption rt program_id a slot asked ledger ledger' p)
      → (q : Pool) × IsSoundPool q
        × (q.liquidity.available_amount ≡ p.liquidity.available_amount - d.amount)
        × (keys q ≡ keys p)
        × ((k : Pubkey)
            → pool_at rt program_id ledger' k
              ≡ (if k == a.reserve then some q else pool_at rt program_id ledger k))
  redemption-stored a slot asked ledger ledger' p sound_p d =
      let after = stale (with_funds p (p.liquidity.available_amount - d.amount)) in
      let (q, sound_q, same, keyed, stored) =
        pack_pool-pool_at rt program_id packs after a.reserve ledger d.packed
          d.authorised.reserve_owned sound_p.version d.backed d.stored in
      let burnt =
        user_burn-pool_at rt program_id calls foreign a.token_program a.collateral_mint a.source
          a.user_authority d.amount d.packed d.burnt d.taken in
      let paid =
        pool_transfer-pool_at rt program_id calls foreign a.token_program a.liquidity_supply
          a.destination a.manager_authority d.amount a.manager d.manager.bump_seed d.burnt ledger'
          d.paid in
      (q, sound_q, same, keyed ∙ sound_p.keyed, λ k. paid k ∙ burnt k ∙ stored k)

  -- A deposit that succeeds where the pools are sound
  pub runs-IsDeposit :
      (amount : ℕ) (accounts : List AccountInfo) (ledger ledger' : Ledger)
      → IsSound rt program_id ledger
      → process_deposit_pool_liquidity rt program_id amount accounts ledger ≡ ok ledger'
      → (a : ExchangeAccounts) × (slot : Slot) × (p : Pool) × (pool_at rt program_id ledger
            a.reserve
          ≡ some p)
        × IsSoundPool p
        × IsDeposit rt program_id a slot amount ledger ledger' p
  unfolding process_deposit_pool_liquidity
  runs-IsDeposit amount accounts ledger ledger' sound h =
      let (_, h0) = reject_if-eq-ok (amount == 0) invalid_amount _ h in
      let ((a, slot), take, _) = >>=-eq-ok (take_accounts rt accounts ledger) _ h0 in
      let (manager, p, n, checked, _, _) =
        process_deposit-stages rt program_id amount accounts ledger ledger' a slot take h in
      let auth = (check_deposit-IsAuthorised rt program_id a slot ledger manager p checked).0 in
      let before =
        pool_at-some rt program_id ledger a.reserve p auth.reserve_owned auth.reserve_read in
      let sound_p = sound a.reserve p before in
      (
        a,
        slot,
        p,
        before,
        sound_p,
        process_deposit_pool_liquidity-IsDeposit rt program_id amount accounts ledger ledger' a slot
            p laws take auth.reserve_read sound_p.backed h,
      )

  pub runs-IsRedemption :
      (amount : ℕ) (accounts : List AccountInfo) (ledger ledger' : Ledger)
      → IsSound rt program_id ledger
      → process_redeem_pool_collateral rt program_id amount accounts ledger ≡ ok ledger'
      → (a : ExchangeAccounts) × (slot : Slot) × (p : Pool) × (pool_at rt program_id ledger
            a.reserve
          ≡ some p)
        × IsSoundPool p
        × IsRedemption rt program_id a slot amount ledger ledger' p
  unfolding process_redeem_pool_collateral
  runs-IsRedemption amount accounts ledger ledger' sound h =
      let (_, h0) = reject_if-eq-ok (amount == 0) invalid_amount _ h in
      let ((a, slot), take, _) = >>=-eq-ok (take_accounts rt accounts ledger) _ h0 in
      let (manager, p, n, checked, _, _) =
        process_redeem-stages rt program_id amount accounts ledger ledger' a slot take h in
      let auth = (check_redeem-IsAuthorised rt program_id a slot ledger manager p checked).0 in
      let before =
        pool_at-some rt program_id ledger a.reserve p auth.reserve_owned auth.reserve_read in
      let sound_p = sound a.reserve p before in
      (
        a,
        slot,
        p,
        before,
        sound_p,
        process_redeem_pool_collateral-IsRedemption rt program_id amount accounts ledger ledger' a
            slot p laws take auth.reserve_read sound_p.backed h,
      )

  pub process_deposit-IsStep :
      (amount : ℕ) (accounts : List AccountInfo) (ledger ledger' : Ledger)
      → IsSound rt program_id ledger
      → process_deposit_pool_liquidity rt program_id amount accounts ledger ≡ ok ledger'
      → IsStep rt program_id (deposit_pool_liquidity amount) ledger ledger'
  process_deposit-IsStep asked accounts ledger ledger' sound h =
      let (a, slot, p, before, sound_p, d) = runs-IsDeposit asked accounts ledger ledger' sound h in
      let (q, sound_q, same, keyed, stored) =
        deposit-stored a slot asked ledger ledger' p sound_p d in
      pays-IsStep rt program_id (deposit_pool_liquidity asked) ledger ledger' sound a.reserve q
        sound_q stored p asked d.amount refl
        (all_or_asked-IsRequested asked d.source.amount d.amount d.all_or_asked) before keyed same

  pub process_redeem-IsStep :
      (amount : ℕ) (accounts : List AccountInfo) (ledger ledger' : Ledger)
      → IsSound rt program_id ledger
      → process_redeem_pool_collateral rt program_id amount accounts ledger ≡ ok ledger'
      → IsStep rt program_id (redeem_pool_collateral amount) ledger ledger'
  process_redeem-IsStep asked accounts ledger ledger' sound h =
      let (a, slot, p, before, sound_p, d) =
        runs-IsRedemption asked accounts ledger ledger' sound h in
      let (q, sound_q, same, keyed, stored) =
        redemption-stored a slot asked ledger ledger' p sound_p d in
      takes-IsStep rt program_id (redeem_pool_collateral asked) ledger ledger' sound a.reserve q
        sound_q stored p asked d.amount refl
        (all_or_asked-IsRequested asked d.source.amount d.amount d.all_or_asked) before keyed
        d.covered same
