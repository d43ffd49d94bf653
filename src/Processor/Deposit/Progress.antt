-- ===== src/Processor/Deposit/Progress.antt =====
-- When a deposit succeeds (`process_deposit_pool_liquidity` of src/processor.rs).
use allwinprotocol.Base.{ℕ, ◌+◌, ◌≤◌, ◌<◌, ◌≡◌, ◌≢◌, false, List, arith, ◌==◌, u64_max, Fits}
use allwinprotocol.Error.{ok}
use allwinprotocol.State.Common.{Pubkey, Slot}
use allwinprotocol.State.Pool.{Pool}
use allwinprotocol.State.Pool.Pack as PoolPack
use allwinprotocol.State.Pool.Principal.{IsBacked, with_funds, deposit_liquidity_exact}
use allwinprotocol.State.PoolManager.{PoolManager}
use allwinprotocol.Processor.Runtime.{Ledger, AccountInfo, TokenAccount, Runtime, PackLaws}
use allwinprotocol.Processor.Accounts.{pack_pool, user_transfer, pool_mint_to}
use allwinprotocol.Processor.Exchange.{ExchangeAccounts, take_accounts, IsAuthorised}
use allwinprotocol.Processor.Principal.{stale}
use allwinprotocol.Processor.Principal.Packing.{with_funds-InRange, pack_pool-ok}
use allwinprotocol.Processor.Steps.{deposit_step}
use allwinprotocol.Processor.Vault.Storage.{unpack_pool-eq_ok}
use allwinprotocol.Processor.Deposit.{
  check_deposit, amount_to_deposit, settle_deposit, process_deposit_pool_liquidity,
}

check_deposit-ok :
    (rt : Runtime) (program_id : Pubkey) (a : ExchangeAccounts) (slot : Slot) (ledger : Ledger)
    (manager : PoolManager) (p : Pool)
    → IsAuthorised rt program_id a slot ledger manager p
    → p.config.deposit_paused ≡ false
    → p.liquidity.supply_pubkey ≢ a.source
    → p.collateral.supply_pubkey ≢ a.destination
    → check_deposit rt program_id a slot ledger ≡ ok (manager, p)
unfolding check_deposit
check_deposit-ok rt program_id a slot ledger manager p auth unpaused no_source no_destination =
    ground arith

amount_to_deposit-ok :
    (rt : Runtime) (a : ExchangeAccounts) (amount : ℕ) (ledger : Ledger)
    (source destination : TokenAccount)
    → rt.unpack_token_account (ledger a.source).bytes ≡ ok source
    → rt.unpack_token_account (ledger a.destination).bytes ≡ ok destination
    → destination.owner ≡ source.owner
    → amount < u64_max
    → amount ≤ source.amount
    → amount_to_deposit rt a amount ledger ≡ ok amount
unfolding amount_to_deposit
amount_to_deposit-ok rt a amount ledger source destination from to owned small held = ground arith

deposit_step-ok :
    (p : Pool) (n : ℕ)
    → IsBacked p
    → Fits 64 (p.liquidity.available_amount + n)
    → deposit_step p n ≡ ok (n, stale (with_funds p (p.liquidity.available_amount + n)))
unfolding deposit_step
deposit_step-ok p n b fits = ground (arith, deposit_liquidity_exact p n b fits)

module _ (rt : Runtime) (packs : PackLaws rt) (program_id : Pubkey) (accounts : List AccountInfo)
    (a : ExchangeAccounts) (slot : Slot) (ledger : Ledger) (manager : PoolManager) (p : Pool)
    (source destination : TokenAccount) (amount : ℕ) where
  -- Let `Pack` be as documented, and let the accounts pass the checks of program, manager, keys,
  -- authority, freshness and lock; let the pool take deposits, let its fields fit their bytes, with
  -- a share for each token and nothing lent or claimed, and let the two token accounts be read,
  -- belong to one owner and not be the pool's own supplies. Then a deposit of some tokens, fewer
  -- than the largest 64-bit number, and no more than the source account holds, succeeds if the
  -- pool's tokens then fit 64 bits and the token program carries out the payment and the mint once
  -- the pool is stored.
  pub process_deposit_pool_liquidity-succeeds :
      take_accounts rt accounts ledger ≡ ok (a, slot)
      → IsAuthorised rt program_id a slot ledger manager p
      → p.config.deposit_paused ≡ false
      → p.liquidity.supply_pubkey ≢ a.source
      → p.collateral.supply_pubkey ≢ a.destination
      → rt.unpack_token_account (ledger a.source).bytes ≡ ok source
      → rt.unpack_token_account (ledger a.destination).bytes ≡ ok destination
      → destination.owner ≡ source.owner
      → IsBacked p
      → PoolPack.InRange p
      → 0 < amount
      → amount < u64_max
      → amount ≤ source.amount
      → Fits 64 (p.liquidity.available_amount + amount)
      → ((packed : Ledger)
          → pack_pool rt
              (stale (with_funds p (p.liquidity.available_amount + amount)))
              a.reserve
              ledger
            ≡ ok packed
          → (paid minted : Ledger) × (user_transfer rt a.token_program a.source a.liquidity_supply
                a.user_authority amount packed
              ≡ ok paid)
            × (pool_mint_to rt a.token_program a.collateral_mint a.destination a.manager_authority
                  amount a.manager manager.bump_seed paid
                ≡ ok minted))
      → (ledger' : Ledger) × (process_deposit_pool_liquidity rt program_id amount accounts ledger
          ≡ ok ledger')
  unfolding process_deposit_pool_liquidity settle_deposit
  process_deposit_pool_liquidity-succeeds take auth unpaused no_source no_destination from to owned
        b r positive small held fits accepts =
      let after = stale (with_funds p (p.liquidity.available_amount + amount)) in
      let (size, _, _) = unpack_pool-eq_ok rt packs ledger a.reserve p auth.reserve_read in
      let (packed, packs') =
        pack_pool-ok rt packs after a.reserve ledger
          (with_funds-InRange p (p.liquidity.available_amount + amount) r fits) size in
      let (paid, minted, pays, mints) = accepts packed packs' in
      let not_zero : (amount == 0) ≡ false = ground arith in
      (
        minted,
        rw
            (
              not_zero,
              take,
              check_deposit-ok rt program_id a slot ledger manager p auth unpaused no_source
                  no_destination,
              amount_to_deposit-ok rt a amount ledger source destination from to owned small held,
              deposit_step-ok p amount b fits,
              packs',
              pays,
            )
            mints,
      )
