-- ===== src/Processor/Deposit.antt =====
-- `process_deposit_pool_liquidity` (src/processor.rs): a user's deposit of tokens into a pool.
pub mod Progress
use allwinprotocol.Base.{
  ℕ, ◌+◌, false, not, List, ltb, ◌==◌, ◌≤◌, if◌then◌else◌, u64_max, ◌≡◌, ◌≢◌, arith, Fits,
}
use allwinprotocol.Error.{
  Result, ok, >>=-eq-ok, invalid_amount, invalid_account_owner, invalid_token_program,
  invalid_account_input, reserve_stale, reentry_locked, deposit_paused, invalid_market_authority,
  deposit_amount_too_large, ◌>>=◌, ◌>>◌,
}
use allwinprotocol.State.Common.{Pubkey, Slot}
use allwinprotocol.State.LastUpdate
use allwinprotocol.State.Pool.{Pool}
use allwinprotocol.State.PoolManager.{PoolManager}
use allwinprotocol.Processor.Runtime.{Ledger, AccountInfo, TokenAccount, Runtime, RuntimeLaws}
use allwinprotocol.Processor.Accounts.{
  reject_if, unpack_pool, unpack_pool_manager, pack_pool, user_transfer, pool_mint_to,
}
use allwinprotocol.Processor.Exchange.{
  ExchangeAccounts, take_accounts, IsAuthorised, reject_if-eq-ok,
}
use allwinprotocol.Processor.Steps.{deposit_step}
use allwinprotocol.State.Pool.Principal.{IsBacked, with_funds}
use allwinprotocol.Processor.Principal.{stale, deposit_step-IsBacked}

-- What a deposit of `amount` into the pool `p` does: `amount` tokens, which the source account holds,
-- leave it for as many shares of the same owner, and the pool that is stored has so many more tokens
-- and shares, is stale, and still has a share for each token.
pub record IsDeposit (rt : Runtime) (program_id : Pubkey) (a : ExchangeAccounts) (slot : Slot)
    (asked : ℕ) (ledger ledger' : Ledger) (p : Pool) : Type 0 where
  pub manager : PoolManager
  pub authorised : IsAuthorised rt program_id a slot ledger manager p
  pub unpaused : p.config.deposit_paused ≡ false
  pub amount : ℕ
  pub source : TokenAccount
  pub source_read : rt.unpack_token_account (ledger a.source).bytes ≡ ok source
  pub destination : TokenAccount
  pub destination_read : rt.unpack_token_account (ledger a.destination).bytes ≡ ok destination
  pub same_owner : destination.owner ≡ source.owner
  pub apart : p.liquidity.supply_pubkey ≢ a.source
  pub all_or_asked : amount ≡ (if asked == u64_max then source.amount else asked)
  pub held : amount ≤ source.amount
  pub backed : IsBacked (stale (with_funds p (p.liquidity.available_amount + amount)))
  pub packed : Ledger
  pub stored :
      pack_pool rt (stale (with_funds p (p.liquidity.available_amount + amount))) a.reserve ledger
      ≡ ok packed
  pub paid : Ledger
  pub taken :
      user_transfer rt a.token_program a.source a.liquidity_supply a.user_authority amount packed
      ≡ ok paid
  pub minted :
      pool_mint_to rt a.token_program a.collateral_mint a.destination a.manager_authority amount
        a.manager manager.bump_seed paid
      ≡ ok ledger'

module _ (rt : Runtime) where
  unfoldable pub check_deposit :
      Pubkey → ExchangeAccounts → Slot → Ledger → Result (PoolManager × Pool)
  unfolding unpack_pool_manager unpack_pool LastUpdate.is_stale
  check_deposit program_id a slot ledger = do
    manager ← unpack_pool_manager rt ledger a.manager
    reject_if (not ((ledger a.manager).owner == program_id)) invalid_account_owner
    reject_if (not (manager.token_program_id == a.token_program)) invalid_token_program
    reserve ← unpack_pool rt ledger a.reserve
    reject_if (not ((ledger a.reserve).owner == program_id)) invalid_account_owner
    reject_if (not (reserve.pool_manager == a.manager)) invalid_account_input
    reject_if (not (reserve.liquidity.supply_pubkey == a.liquidity_supply)) invalid_account_input
    reject_if (not (reserve.collateral.mint_pubkey == a.collateral_mint)) invalid_account_input
    reject_if (reserve.liquidity.supply_pubkey == a.source) invalid_account_input
    reject_if (reserve.collateral.supply_pubkey == a.destination) invalid_account_input
    stale ← LastUpdate.is_stale reserve.last_update slot
    reject_if stale reserve_stale
    reject_if reserve.reentry_lock reentry_locked
    reject_if reserve.config.deposit_paused deposit_paused
    authority ← rt.create_program_address a.manager manager.bump_seed program_id
    reject_if (not (authority == a.manager_authority)) invalid_market_authority
    ok (manager, reserve)

  unfoldable pub amount_to_deposit : ExchangeAccounts → ℕ → Ledger → Result ℕ
  amount_to_deposit a amount ledger = do
    liquidity_account ← rt.unpack_token_account (ledger a.source).bytes
    collateral_account ← rt.unpack_token_account (ledger a.destination).bytes
    reject_if (not (collateral_account.owner == liquidity_account.owner)) invalid_account_owner
    if amount == u64_max
        then ok liquidity_account.amount
        else do reject_if (ltb liquidity_account.amount amount) deposit_amount_too_large; ok amount

  -- Store the pool, take the liquidity, mint the collateral.
  unfoldable pub settle_deposit : ExchangeAccounts → PoolManager → Pool → ℕ → Ledger → Result Ledger
  unfolding deposit_step pack_pool user_transfer pool_mint_to
  settle_deposit a manager reserve liquidity_amount ledger = do
    (collateral_amount, reserve') ← deposit_step reserve liquidity_amount
    packed ← pack_pool rt reserve' a.reserve ledger
    paid ←
        user_transfer rt a.token_program a.source a.liquidity_supply a.user_authority
          liquidity_amount packed
    pool_mint_to rt a.token_program a.collateral_mint a.destination a.manager_authority
        collateral_amount a.manager manager.bump_seed paid

  unfoldable pub process_deposit_pool_liquidity :
      Pubkey → ℕ → List AccountInfo → Ledger → Result Ledger
  unfolding take_accounts check_deposit amount_to_deposit settle_deposit
  process_deposit_pool_liquidity program_id amount accounts ledger = do
    reject_if (amount == 0) invalid_amount
    (a, slot) ← take_accounts rt accounts ledger
    (manager, reserve) ← check_deposit program_id a slot ledger
    liquidity_amount ← amount_to_deposit a amount ledger
    settle_deposit a manager reserve liquidity_amount ledger

  pub check_deposit-IsAuthorised :
      (program_id : Pubkey) (a : ExchangeAccounts) (slot : Slot) (ledger : Ledger)
      (manager : PoolManager) (reserve : Pool)
      → check_deposit program_id a slot ledger ≡ ok (manager, reserve)
      → IsAuthorised rt program_id a slot ledger manager reserve
        × (reserve.config.deposit_paused ≡ false)
        × (reserve.liquidity.supply_pubkey ≢ a.source)
        × (reserve.collateral.supply_pubkey ≢ a.destination)
  unfolding check_deposit
  check_deposit-IsAuthorised program_id a slot ledger manager reserve h = ground arith

  -- The whole balance for the largest amount, and otherwise an amount that the balance covers; both
  -- token accounts belong to one owner.
  amount_to_deposit-covered :
      (a : ExchangeAccounts) (amount : ℕ) (ledger : Ledger) (n : ℕ)
      → amount_to_deposit a amount ledger ≡ ok n
      → (from to : TokenAccount) × (rt.unpack_token_account (ledger a.source).bytes ≡ ok from)
        × (rt.unpack_token_account (ledger a.destination).bytes ≡ ok to)
        × (to.owner ≡ from.owner)
        × (n ≡ (if amount == u64_max then from.amount else amount))
        × (n ≤ from.amount)
  unfolding amount_to_deposit
  amount_to_deposit-covered a amount ledger n h = ground arith

  settle_deposit-effects :
      (a : ExchangeAccounts) (manager : PoolManager) (reserve : Pool) (n : ℕ)
      (ledger ledger' : Ledger)
      → settle_deposit a manager reserve n ledger ≡ ok ledger'
      → (shares : ℕ) × (reserve' : Pool) × (packed paid : Ledger) × (deposit_step reserve n
          ≡ ok (shares, reserve'))
        × (pack_pool rt reserve' a.reserve ledger ≡ ok packed)
        × (user_transfer rt a.token_program a.source a.liquidity_supply a.user_authority n packed
            ≡ ok paid)
        × (pool_mint_to rt a.token_program a.collateral_mint a.destination a.manager_authority
              shares a.manager manager.bump_seed paid
            ≡ ok ledger')
  unfolding settle_deposit
  settle_deposit-effects a manager reserve n ledger ledger' h =
      let ((shares, reserve'), step, h1) = >>=-eq-ok (deposit_step reserve n) _ h in
      let (packed, pack, h2) = >>=-eq-ok (pack_pool rt reserve' a.reserve ledger) _ h1 in
      let (paid, pay, minted) =
        >>=-eq-ok
          (user_transfer rt a.token_program a.source a.liquidity_supply a.user_authority n packed) _
          h2 in
      (shares, reserve', packed, paid, step, pack, pay, minted)

  pub process_deposit-stages :
      (program_id : Pubkey) (amount : ℕ) (accounts : List AccountInfo) (ledger ledger' : Ledger)
      (a : ExchangeAccounts) (slot : Slot)
      → take_accounts rt accounts ledger ≡ ok (a, slot)
      → process_deposit_pool_liquidity program_id amount accounts ledger ≡ ok ledger'
      → (manager : PoolManager) × (reserve : Pool) × (n : ℕ) × (check_deposit program_id a slot
            ledger
          ≡ ok (manager, reserve))
        × (amount_to_deposit a amount ledger ≡ ok n)
        × (settle_deposit a manager reserve n ledger ≡ ok ledger')
  unfolding process_deposit_pool_liquidity
  process_deposit-stages program_id amount accounts ledger ledger' a slot take h =
      let (positive, h0) = reject_if-eq-ok (amount == 0) invalid_amount _ h in
      let h1 = rw take at h0 in
      let ((manager, reserve), checked, h2) =
        >>=-eq-ok (check_deposit program_id a slot ledger) _ h1 in
      let (n, amounts, settled) = >>=-eq-ok (amount_to_deposit a amount ledger) _ h2 in
      (manager, reserve, n, checked, amounts, settled)

  -- Let the pool that is deposited into, as its account holds it, be one in which nothing is lent or
  -- claimed and there is a share for each token, and let the amounts of token accounts be 64-bit
  -- numbers. Then a deposit that succeeds has passed the checks of program, accounts, authority,
  -- lock, pause and freshness; it takes the number of tokens that was asked for, or all that the
  -- source account holds where this is the largest 64-bit number, and the source account, which is
  -- not the pool's own supply, holds as many; it mints as many shares for the same owner; and the
  -- pool that it stores has so many more tokens and shares, is again of that kind, and is marked
  -- stale.
  pub process_deposit_pool_liquidity-IsDeposit :
      (program_id : Pubkey) (amount : ℕ) (accounts : List AccountInfo) (ledger ledger' : Ledger)
      (a : ExchangeAccounts) (slot : Slot) (p : Pool)
      → RuntimeLaws rt
      → take_accounts rt accounts ledger ≡ ok (a, slot)
      → unpack_pool rt ledger a.reserve ≡ ok p
      → IsBacked p
      → process_deposit_pool_liquidity program_id amount accounts ledger ≡ ok ledger'
      → IsDeposit rt program_id a slot amount ledger ledger' p
  process_deposit_pool_liquidity-IsDeposit program_id amount accounts ledger ledger' a slot p laws
        take read b h =
      let (manager, p₁, n, checked, amounts, settled) =
        process_deposit-stages program_id amount accounts ledger ledger' a slot take h in
      let read₁ =
        (check_deposit-IsAuthorised program_id a slot ledger manager p₁ checked).0.reserve_read in
      let same : p₁ ≡ p = ground (arith, read, read₁) in
      let (authorised, unpaused, apart, _) =
        check_deposit-IsAuthorised program_id a slot ledger manager p (rw same at checked) in
      let (from, to, source, destination, owned, whole, held) =
        amount_to_deposit-covered a amount ledger n amounts in
      let (shares, p', packed, paid, step, pack, pay, minted) =
        settle_deposit-effects a manager p n ledger ledger' (rw same at settled) in
      let fits : Fits 64 n = omega (arith, held, laws.amount-Fits (ledger a.source).bytes source) in
      let (one, after, backed) = deposit_step-IsBacked p p' n shares b fits step in
      record {
        manager = manager;
        authorised = authorised;
        unpaused = unpaused;
        amount = n;
        source = from;
        source_read = source;
        destination = to;
        destination_read = destination;
        same_owner = owned;
        apart = apart;
        all_or_asked = whole;
        held = held;
        backed = rw after at backed;
        packed = packed;
        stored = rw after at pack;
        paid = paid;
        taken = pay;
        minted = rw one at minted;
      }
