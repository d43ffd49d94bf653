-- ===== src/Processor/RefreshPool/Effect.antt =====
-- What a refresh of a pool stores (`process_refresh_reserve` of src/processor.rs).
use allwinprotocol.Base.{◌≤◌, ◌≡◌, false, arith}
use allwinprotocol.Error.{ok, >>=-eq-ok, invalid_account_owner, invalid_account_input}
use allwinprotocol.Math.Decimal.{Decimal}
use allwinprotocol.Math.Rate.{Rate}
use allwinprotocol.State.Common.{Pubkey, Slot}
use allwinprotocol.State.LastUpdate
use allwinprotocol.State.Pool
use allwinprotocol.State.Pool.{Pool}
use allwinprotocol.Processor.Runtime.{Ledger, Runtime}
use allwinprotocol.Processor.Accounts.{unpack_pool, pack_pool}
use allwinprotocol.Processor.Exchange.{require-eq-ok}
use allwinprotocol.Processor.Oracle.{get_pyth_price}
use allwinprotocol.Processor.Steps.{refresh_step}
use allwinprotocol.Processor.RefreshPool.{refreshed}

-- The same pool with the price, fresh in the slot, and with other indices
abbrev pub with_price : Pool → Decimal → Slot → (l_token_index borrow_index : Decimal) → Pool
with_price p price slot l_token_index borrow_index = record p {
  last_update = record { slot = slot; stale = false };
  liquidity = record (p.liquidity) { market_price = price };
  lottery = record (p.lottery) {
    l_token_mining_index = l_token_index;
    borrow_mining_index = borrow_index;
  };
}

refresh_borrow_index-effect :
    (p p' : Pool) (slot : Slot) (ratio : Rate)
    → Pool.refresh_borrow_index p slot ratio ≡ ok p'
    → (index : Decimal) × (p.lottery.borrow_mining_index ≤ index)
      × (p' ≡ record p { lottery = record (p.lottery) { borrow_mining_index = index } })
unfolding Pool.refresh_borrow_index
refresh_borrow_index-effect p p' slot ratio h =
    (p'.lottery.borrow_mining_index, ground arith, ground arith)

refresh_index-effect :
    (p p' : Pool) (slot : Slot)
    → Pool.refresh_index p slot ≡ ok p'
    → (l_token_index borrow_index : Decimal) × (p.lottery.l_token_mining_index ≤ l_token_index)
      × (p.lottery.borrow_mining_index ≤ borrow_index)
      × (p' ≡ record p {
        lottery = record (p.lottery) {
          l_token_mining_index = l_token_index;
          borrow_mining_index = borrow_index;
        };
      })
unfolding Pool.refresh_index
refresh_index-effect p p' slot h = (
  p'.lottery.l_token_mining_index,
  p'.lottery.borrow_mining_index,
  ground arith,
  ground arith,
  ground arith,
)

pub refresh_step-effect :
    (p p' : Pool) (price : Decimal) (slot : Slot)
    → refresh_step p price slot ≡ ok p'
    → (l_token_index borrow_index : Decimal) × (p.lottery.l_token_mining_index ≤ l_token_index)
      × (p.lottery.borrow_mining_index ≤ borrow_index)
      × (p' ≡ with_price p price slot l_token_index borrow_index)
unfolding refresh_step
refresh_step-effect p p' price slot h =
    let priced = record p { liquidity = record (p.liquidity) { market_price = price } } in
    let (q, accrues, made) = >>=-eq-ok (Pool.refresh_index priced slot) _ h in
    let (l_token_index, borrow_index, grows, grows', same) =
      refresh_index-effect priced q slot accrues in
    (l_token_index, borrow_index, grows, grows', ground arith)

-- The pool is read from an account of the program, and its oracle's price from the oracle's account;
-- the pool that is stored is the same but for the price, the slot and indices that have not shrunk.
pub record IsRefreshed (rt : Runtime) (program_id reserve_key oracle_key : Pubkey) (slot : Slot)
    (ledger ledger' : Ledger) : Type 0 where
  pub pool : Pool
  pub pool_read : unpack_pool rt ledger reserve_key ≡ ok pool
  pub pool_owned : (ledger reserve_key).owner ≡ program_id
  pub oracle : pool.liquidity.pyth_oracle_pubkey ≡ oracle_key
  pub price : Decimal
  pub priced : get_pyth_price rt oracle_key ledger ≡ ok price
  pub l_token_index : Decimal
  pub l_token_grows : pool.lottery.l_token_mining_index ≤ l_token_index
  pub borrow_index : Decimal
  pub borrow_grows : pool.lottery.borrow_mining_index ≤ borrow_index
  pub stored :
      pack_pool rt (with_price pool price slot l_token_index borrow_index) reserve_key ledger
      ≡ ok ledger'
  pub fresh :
      LastUpdate.is_stale (with_price pool price slot l_token_index borrow_index).last_update slot
      ≡ ok false

module _ (rt : Runtime) (program_id : Pubkey) where
  -- What a refresh that succeeds has gone through
  pub refreshed-eq_ok :
      (reserve_key oracle_key : Pubkey) (slot : Slot) (ledger : Ledger) (p' : Pool)
      → refreshed rt program_id reserve_key oracle_key slot ledger ≡ ok p'
      → (p : Pool) × (price : Decimal) × (unpack_pool rt ledger reserve_key ≡ ok p)
        × ((ledger reserve_key).owner ≡ program_id)
        × (p.liquidity.pyth_oracle_pubkey ≡ oracle_key)
        × (get_pyth_price rt oracle_key ledger ≡ ok price)
        × (refresh_step p price slot ≡ ok p')
  unfolding refreshed
  refreshed-eq_ok reserve_key oracle_key slot ledger p' h =
      let (p, read, h1) = >>=-eq-ok (unpack_pool rt ledger reserve_key) _ h in
      let (owned, h2) =
        require-eq-ok (ledger reserve_key).owner program_id invalid_account_owner _ h1 in
      let (oracle, h3) =
        require-eq-ok p.liquidity.pyth_oracle_pubkey oracle_key invalid_account_input _ h2 in
      let (price, priced, step) = >>=-eq-ok (get_pyth_price rt oracle_key ledger) _ h3 in
      (p, price, read, owned, oracle, priced, step)
