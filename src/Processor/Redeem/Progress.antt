-- ===== src/Processor/Redeem/Progress.antt =====
-- When a redemption succeeds (`process_redeem_pool_collateral` of src/processor.rs).
use allwinprotocol.Base.{ℕ, ◌-◌, ◌≤◌, ◌<◌, ◌≡◌, ◌≢◌, false, List, arith, ◌==◌, u64_max}
use allwinprotocol.Error.{ok}
use allwinprotocol.State.Common.{Pubkey, Slot}
use allwinprotocol.State.Pool.{Pool}
use allwinprotocol.State.Pool.Pack as PoolPack
use allwinprotocol.State.Pool.Principal.{IsBacked, with_funds, redeem_collateral_exact}
use allwinprotocol.State.PoolManager.{PoolManager}
use allwinprotocol.Processor.Runtime.{Ledger, AccountInfo, TokenAccount, Runtime, PackLaws}
use allwinprotocol.Processor.Accounts.{pack_pool, user_burn, pool_transfer}
use allwinprotocol.Processor.Exchange.{ExchangeAccounts, take_accounts, IsAuthorised}
use allwinprotocol.Processor.Principal.{stale}
use allwinprotocol.Processor.Principal.Packing.{with_funds-InRange, pack_pool-ok}
use allwinprotocol.Processor.Steps.{redeem_step}
use allwinprotocol.Processor.Vault.Storage.{unpack_pool-eq_ok}
use allwinprotocol.Processor.Redeem.{
  check_redeem, amount_to_redeem, settle_redeem, process_redeem_pool_collateral,
}

check_redeem-ok :
    (rt : Runtime) (program_id : Pubkey) (a : ExchangeAccounts) (slot : Slot) (ledger : Ledger)
    (manager : PoolManager) (p : Pool)
    → IsAuthorised rt program_id a slot ledger manager p
    → p.collateral.supply_pubkey ≢ a.source
    → p.liquidity.supply_pubkey ≢ a.destination
    → check_redeem rt program_id a slot ledger ≡ ok (manager, p)
unfolding check_redeem
check_redeem-ok rt program_id a slot ledger manager p auth no_source no_destination = ground arith

amount_to_redeem-ok :
    (rt : Runtime) (a : ExchangeAccounts) (amount : ℕ) (ledger : Ledger)
    (source destination : TokenAccount)
    → rt.unpack_token_account (ledger a.source).bytes ≡ ok source
    → rt.unpack_token_account (ledger a.destination).bytes ≡ ok destination
    → destination.owner ≡ source.owner
    → amount < u64_max
    → amount ≤ source.amount
    → amount_to_redeem rt a amount ledger ≡ ok amount
unfolding amount_to_redeem
amount_to_redeem-ok rt a amount ledger source destination from to owned small held = ground arith

redeem_step-ok :
    (p : Pool) (n : ℕ)
    → IsBacked p
    → n ≤ p.liquidity.available_amount
    → redeem_step p n ≡ ok (n, stale (with_funds p (p.liquidity.available_amount - n)))
unfolding redeem_step
redeem_step-ok p n b covered =
    ground (arith, redeem_collateral_exact p n b (omega (arith, b.in_range)))

module _ (rt : Runtime) (packs : PackLaws rt) (program_id : Pubkey) (accounts : List AccountInfo)
    (a : ExchangeAccounts) (slot : Slot) (ledger : Ledger) (manager : PoolManager) (p : Pool)
    (source destination : TokenAccount) (amount : ℕ) where
  -- Let `Pack` be as documented, and let the accounts pass the checks of program, manager, keys,
  -- authority, freshness and lock; let the pool's fields fit their bytes, with a share for each
  -- token and nothing lent or claimed, and let the two token accounts be read, belong to one owner
  -- and not be the pool's own supplies. Then a redemption of some shares, fewer than the largest
  -- 64-bit number, and no more than the source account holds and the pool has tokens, succeeds if
  -- the token program carries out the burn and the payment once the pool is stored.
  pub process_redeem_pool_collateral-succeeds :
      take_accounts rt accounts ledger ≡ ok (a, slot)
      → IsAuthorised rt program_id a slot ledger manager p
      → p.collateral.supply_pubkey ≢ a.source
      → p.liquidity.supply_pubkey ≢ a.destination
      → rt.unpack_token_account (ledger a.source).bytes ≡ ok source
      → rt.unpack_token_account (ledger a.destination).bytes ≡ ok destination
      → destination.owner ≡ source.owner
      → IsBacked p
      → PoolPack.InRange p
      → 0 < amount
      → amount < u64_max
      → amount ≤ source.amount
      → amount ≤ p.liquidity.available_amount
      → ((packed : Ledger)
          → pack_pool rt
              (stale (with_funds p (p.liquidity.available_amount - amount)))
              a.reserve
              ledger
            ≡ ok packed
          → (burnt paid : Ledger) × (user_burn rt a.token_program a.collateral_mint a.source
                a.user_authority amount packed
              ≡ ok burnt)
            × (pool_transfer rt a.token_program a.liquidity_supply a.destination a.manager_authority
                  amount a.manager manager.bump_seed burnt
                ≡ ok paid))
      → (ledger' : Ledger) × (process_redeem_pool_collateral rt program_id amount accounts ledger
          ≡ ok ledger')
  unfolding process_redeem_pool_collateral settle_redeem
  process_redeem_pool_collateral-succeeds take auth no_source no_destination from to owned b r
        positive small held covered accepts =
      let after = stale (with_funds p (p.liquidity.available_amount - amount)) in
      let (size, _, _) = unpack_pool-eq_ok rt packs ledger a.reserve p auth.reserve_read in
      let (packed, packs') =
        pack_pool-ok rt packs after a.reserve ledger
          (with_funds-InRange p (p.liquidity.available_amount - amount) r
            (omega (arith, b.in_range)))
          size in
      let (burnt, paid, burns, pays) = accepts packed packs' in
      let not_zero : (amount == 0) ≡ false = ground arith in
      (
        paid,
        rw
            (
              not_zero,
              take,
              check_redeem-ok rt program_id a slot ledger manager p auth no_source no_destination,
              amount_to_redeem-ok rt a amount ledger source destination from to owned small held,
              redeem_step-ok p amount b covered,
              packs',
              burns,
            )
            pays,
      )
