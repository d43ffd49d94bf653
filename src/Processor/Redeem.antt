-- ===== src/Processor/Redeem.antt =====
-- `process_redeem_pool_collateral` (src/processor.rs): a user's redemption of shares of a pool.
pub mod Progress
use allwinprotocol.Base.{
  ℕ, ◌-◌, not, List, ltb, ◌==◌, ◌≤◌, if◌then◌else◌, u64_max, ◌≡◌, ◌≢◌, arith, Fits,
}
use allwinprotocol.Error.{
  Result, ok, >>=-eq-ok, invalid_amount, invalid_account_owner, invalid_token_program,
  invalid_account_input, reserve_stale, reentry_locked, invalid_market_authority,
  redeem_amount_too_large, ◌>>=◌, ◌>>◌,
}
use allwinprotocol.State.Common.{Pubkey, Slot}
use allwinprotocol.State.LastUpdate
use allwinprotocol.State.Pool.{Pool}
use allwinprotocol.State.Pool.Principal.{IsBacked, with_funds}
use allwinprotocol.State.PoolManager.{PoolManager}
use allwinprotocol.Processor.Runtime.{Ledger, AccountInfo, TokenAccount, Runtime, RuntimeLaws}
use allwinprotocol.Processor.Accounts.{
  reject_if, unpack_pool, unpack_pool_manager, pack_pool, user_burn, pool_transfer,
}
use allwinprotocol.Processor.Exchange.{
  ExchangeAccounts, take_accounts, IsAuthorised, reject_if-eq-ok,
}
use allwinprotocol.Processor.Steps.{redeem_step}
use allwinprotocol.Processor.Principal.{stale, redeem_step-IsBacked}

-- What a redemption of `amount` from the pool `p` does: `amount` shares, which the source account holds
-- and the pool's tokens cover, are burnt for as many tokens of the same owner, and the pool that is
-- stored has so many tokens and shares less, is stale, and still has a share for each token.
pub record IsRedemption (rt : Runtime) (program_id : Pubkey) (a : ExchangeAccounts) (slot : Slot)
    (asked : ℕ) (ledger ledger' : Ledger) (p : Pool) : Type 0 where
  pub manager : PoolManager
  pub authorised : IsAuthorised rt program_id a slot ledger manager p
  pub amount : ℕ
  pub source : TokenAccount
  pub source_read : rt.unpack_token_account (ledger a.source).bytes ≡ ok source
  pub destination : TokenAccount
  pub destination_read : rt.unpack_token_account (ledger a.destination).bytes ≡ ok destination
  pub same_owner : destination.owner ≡ source.owner
  pub all_or_asked : amount ≡ (if asked == u64_max then source.amount else asked)
  pub held : amount ≤ source.amount
  pub covered : amount ≤ p.liquidity.available_amount
  pub backed : IsBacked (stale (with_funds p (p.liquidity.available_amount - amount)))
  pub packed : Ledger
  pub stored :
      pack_pool rt (stale (with_funds p (p.liquidity.available_amount - amount))) a.reserve ledger
      ≡ ok packed
  pub burnt : Ledger
  pub taken :
      user_burn rt a.token_program a.collateral_mint a.source a.user_authority amount packed
      ≡ ok burnt
  pub paid :
      pool_transfer rt a.token_program a.liquidity_supply a.destination a.manager_authority amount
        a.manager manager.bump_seed burnt
      ≡ ok ledger'

module _ (rt : Runtime) where
  unfoldable pub check_redeem :
      Pubkey → ExchangeAccounts → Slot → Ledger → Result (PoolManager × Pool)
  unfolding unpack_pool_manager unpack_pool LastUpdate.is_stale
  check_redeem program_id a slot ledger = do
    manager ← unpack_pool_manager rt ledger a.manager
    reject_if (not ((ledger a.manager).owner == program_id)) invalid_account_owner
    reject_if (not (manager.token_program_id == a.token_program)) invalid_token_program
    reserve ← unpack_pool rt ledger a.reserve
    reject_if (not ((ledger a.reserve).owner == program_id)) invalid_account_owner
    reject_if (not (reserve.pool_manager == a.manager)) invalid_account_input
    reject_if (not (reserve.collateral.mint_pubkey == a.collateral_mint)) invalid_account_input
    reject_if (reserve.collateral.supply_pubkey == a.source) invalid_account_input
    reject_if (not (reserve.liquidity.supply_pubkey == a.liquidity_supply)) invalid_account_input
    reject_if (reserve.liquidity.supply_pubkey == a.destination) invalid_account_input
    stale ← LastUpdate.is_stale reserve.last_update slot
    reject_if stale reserve_stale
    reject_if reserve.reentry_lock reentry_locked
    authority ← rt.create_program_address a.manager manager.bump_seed program_id
    reject_if (not (authority == a.manager_authority)) invalid_market_authority
    ok (manager, reserve)

  unfoldable pub amount_to_redeem : ExchangeAccounts → ℕ → Ledger → Result ℕ
  amount_to_redeem a amount ledger = do
    collateral_account ← rt.unpack_token_account (ledger a.source).bytes
    liquidity_account ← rt.unpack_token_account (ledger a.destination).bytes
    reject_if (not (liquidity_account.owner == collateral_account.owner)) invalid_account_owner
    if amount == u64_max
        then ok collateral_account.amount
        else do reject_if (ltb collateral_account.amount amount) redeem_amount_too_large; ok amount

  -- Store the pool, burn the collateral, pay the liquidity.
  unfoldable pub settle_redeem : ExchangeAccounts → PoolManager → Pool → ℕ → Ledger → Result Ledger
  unfolding redeem_step pack_pool user_burn pool_transfer
  settle_redeem a manager reserve collateral_amount ledger = do
    (liquidity_amount, reserve') ← redeem_step reserve collateral_amount
    packed ← pack_pool rt reserve' a.reserve ledger
    burnt ←
        user_burn rt a.token_program a.collateral_mint a.source a.user_authority collateral_amount
          packed
    pool_transfer rt a.token_program a.liquidity_supply a.destination a.manager_authority
        liquidity_amount a.manager manager.bump_seed burnt

  unfoldable pub process_redeem_pool_collateral :
      Pubkey → ℕ → List AccountInfo → Ledger → Result Ledger
  unfolding take_accounts check_redeem amount_to_redeem settle_redeem
  process_redeem_pool_collateral program_id amount accounts ledger = do
    reject_if (amount == 0) invalid_amount
    (a, slot) ← take_accounts rt accounts ledger
    (manager, reserve) ← check_redeem program_id a slot ledger
    collateral_amount ← amount_to_redeem a amount ledger
    settle_redeem a manager reserve collateral_amount ledger

  pub check_redeem-IsAuthorised :
      (program_id : Pubkey) (a : ExchangeAccounts) (slot : Slot) (ledger : Ledger)
      (manager : PoolManager) (reserve : Pool)
      → check_redeem program_id a slot ledger ≡ ok (manager, reserve)
      → IsAuthorised rt program_id a slot ledger manager reserve
        × (reserve.collateral.supply_pubkey ≢ a.source)
        × (reserve.liquidity.supply_pubkey ≢ a.destination)
  unfolding check_redeem
  check_redeem-IsAuthorised program_id a slot ledger manager reserve h = ground arith

  -- The whole balance for the largest amount, and otherwise an amount that the balance covers; both
  -- token accounts belong to one owner.
  amount_to_redeem-covered :
      (a : ExchangeAccounts) (amount : ℕ) (ledger : Ledger) (n : ℕ)
      → amount_to_redeem a amount ledger ≡ ok n
      → (from to : TokenAccount) × (rt.unpack_token_account (ledger a.source).bytes ≡ ok from)
        × (rt.unpack_token_account (ledger a.destination).bytes ≡ ok to)
        × (to.owner ≡ from.owner)
        × (n ≡ (if amount == u64_max then from.amount else amount))
        × (n ≤ from.amount)
  unfolding amount_to_redeem
  amount_to_redeem-covered a amount ledger n h = ground arith

  settle_redeem-effects :
      (a : ExchangeAccounts) (manager : PoolManager) (reserve : Pool) (n : ℕ)
      (ledger ledger' : Ledger)
      → settle_redeem a manager reserve n ledger ≡ ok ledger'
      → (tokens : ℕ) × (reserve' : Pool) × (packed burnt : Ledger) × (redeem_step reserve n
          ≡ ok (tokens, reserve'))
        × (pack_pool rt reserve' a.reserve ledger ≡ ok packed)
        × (user_burn rt a.token_program a.collateral_mint a.source a.user_authority n packed
            ≡ ok burnt)
        × (pool_transfer rt a.token_program a.liquidity_supply a.destination a.manager_authority
              tokens a.manager manager.bump_seed burnt
            ≡ ok ledger')
  unfolding settle_redeem
  settle_redeem-effects a manager reserve n ledger ledger' h =
      let ((tokens, reserve'), step, h1) = >>=-eq-ok (redeem_step reserve n) _ h in
      let (packed, pack, h2) = >>=-eq-ok (pack_pool rt reserve' a.reserve ledger) _ h1 in
      let (burnt, burn, paid) =
        >>=-eq-ok
          (user_burn rt a.token_program a.collateral_mint a.source a.user_authority n packed) _
          h2 in
      (tokens, reserve', packed, burnt, step, pack, burn, paid)

  pub process_redeem-stages :
      (program_id : Pubkey) (amount : ℕ) (accounts : List AccountInfo) (ledger ledger' : Ledger)
      (a : ExchangeAccounts) (slot : Slot)
      → take_accounts rt accounts ledger ≡ ok (a, slot)
      → process_redeem_pool_collateral program_id amount accounts ledger ≡ ok ledger'
      → (manager : PoolManager) × (reserve : Pool) × (n : ℕ) × (check_redeem program_id a slot
            ledger
          ≡ ok (manager, reserve))
        × (amount_to_redeem a amount ledger ≡ ok n)
        × (settle_redeem a manager reserve n ledger ≡ ok ledger')
  unfolding process_redeem_pool_collateral
  process_redeem-stages program_id amount accounts ledger ledger' a slot take h =
      let (positive, h0) = reject_if-eq-ok (amount == 0) invalid_amount _ h in
      let h1 = rw take at h0 in
      let ((manager, reserve), checked, h2) =
        >>=-eq-ok (check_redeem program_id a slot ledger) _ h1 in
      let (n, amounts, settled) = >>=-eq-ok (amount_to_redeem a amount ledger) _ h2 in
      (manager, reserve, n, checked, amounts, settled)

  -- Let the pool that is redeemed from, as its account holds it, be one in which nothing is lent or
  -- claimed and there is a share for each token, and let the amounts of token accounts be 64-bit
  -- numbers. Then a redemption that succeeds has passed the checks of program, accounts, authority,
  -- lock and freshness; it burns the number of shares that was asked for, or all that the source
  -- account holds where this is the largest 64-bit number, and the source account holds and the
  -- tokens of the pool cover as many; it pays as many tokens to the same owner; and the pool that it
  -- stores has so many tokens and shares less, is again of that kind, and is marked stale.
  pub process_redeem_pool_collateral-IsRedemption :
      (program_id : Pubkey) (amount : ℕ) (accounts : List AccountInfo) (ledger ledger' : Ledger)
      (a : ExchangeAccounts) (slot : Slot) (p : Pool)
      → RuntimeLaws rt
      → take_accounts rt accounts ledger ≡ ok (a, slot)
      → unpack_pool rt ledger a.reserve ≡ ok p
      → IsBacked p
      → process_redeem_pool_collateral program_id amount accounts ledger ≡ ok ledger'
      → IsRedemption rt program_id a slot amount ledger ledger' p
  process_redeem_pool_collateral-IsRedemption program_id amount accounts ledger ledger' a slot p
        laws take read b h =
      let (manager, p₁, n, checked, amounts, settled) =
        process_redeem-stages program_id amount accounts ledger ledger' a slot take h in
      let read₁ =
        (check_redeem-IsAuthorised program_id a slot ledger manager p₁ checked).0.reserve_read in
      let same : p₁ ≡ p = ground (arith, read, read₁) in
      let (authorised, _, _) =
        check_redeem-IsAuthorised program_id a slot ledger manager p (rw same at checked) in
      let (from, to, source, destination, owned, whole, held) =
        amount_to_redeem-covered a amount ledger n amounts in
      let (tokens, p', packed, burnt, step, pack, burn, paid) =
        settle_redeem-effects a manager p n ledger ledger' (rw same at settled) in
      let fits : Fits 64 n = omega (arith, held, laws.amount-Fits (ledger a.source).bytes source) in
      let (one, covered, after, backed) = redeem_step-IsBacked p p' n tokens b fits step in
      record {
        manager = manager;
        authorised = authorised;
        amount = n;
        source = from;
        source_read = source;
        destination = to;
        destination_read = destination;
        same_owner = owned;
        all_or_asked = whole;
        held = held;
        covered = covered;
        backed = rw after at backed;
        packed = packed;
        stored = rw after at pack;
        burnt = burnt;
        taken = burn;
        paid = rw one at paid;
      }
