-- ===== src/Processor/InitPool/Opening.antt =====
-- What the checks of a new pool establish (`process_init_pool` of src/processor.rs), and how the pool
-- starts.
use allwinprotocol.Base.{ℕ, Bool, ◌≡◌, true, false, List, arith}
use allwinprotocol.Error.{ok, >>=-eq-ok}
use allwinprotocol.Math.Decimal.{Decimal}
use allwinprotocol.State.Common.{Pubkey, Slot, program_version}
use allwinprotocol.State.Pool
use allwinprotocol.State.Pool.{Pool, PoolConfig}
use allwinprotocol.State.Pool.Pack as PoolPack
use allwinprotocol.State.Pool.Principal.{IsBacked}
use allwinprotocol.State.PoolManager.{PoolManager}
use allwinprotocol.Processor.Runtime.{Ledger, AccountInfo, Product, Mint, Runtime}
use allwinprotocol.Processor.Accounts.{unpack_pool_manager, pack_pool}
use allwinprotocol.Processor.Guards.{assert_uninitialized}
use allwinprotocol.Processor.Oracle.{
  get_pyth_price, get_pyth_product_quote_currency, or_invalid_data,
}
use allwinprotocol.Processor.InitPool.{
  reserve_account, liquidity_mint, liquidity_supply, liquidity_fee_receiver, collateral_mint,
  collateral_supply, un_coll_supply, pyth_product, pyth_price, pool_manager, pool_manager_owner,
  account_at, check_reserve, check_fee_receiver, check_manager, check_oracle, uninitialized_pool,
  init_pool, process_init_pool,
}
use allwinprotocol.Processor.InitPool.Checks.{
  check_product-eq_ok, check_reserve-eq_ok, check_manager-eq_ok, check_oracle-eq_ok,
  uninitialized_pool-eq_ok,
}

-- A pool with no tokens and no shares, of the manager, the mint and the oracle that are passed
pub record IsNewPool (manager_key mint_key price_key : Pubkey) (price : Decimal) (p : Pool)
    : Type 0 where
  pub version : p.version ≡ program_version
  pub backed : IsBacked p
  pub empty : p.liquidity.available_amount ≡ 0
  pub unlocked : p.reentry_lock ≡ false
  pub manager : p.pool_manager ≡ manager_key
  pub mint : p.liquidity.mint_pubkey ≡ mint_key
  pub oracle : p.liquidity.pyth_oracle_pubkey ≡ price_key
  pub priced : p.liquidity.market_price ≡ price

-- The accounts with which a pool `p` is opened: the owner of the manager signs, the pool's account is
-- the program's and holds no pool, and the oracle's product prices the mint in the manager's currency.
pub record IsOpening (rt : Runtime) (program_id : Pubkey) (accounts : List AccountInfo)
    (ledger ledger' : Ledger) : Type 0 where
  pub reserve : AccountInfo
  pub reserve_passed : account_at accounts reserve_account ≡ ok reserve
  pub reserve_owned : (ledger reserve.key).owner ≡ program_id
  pub old : Pool
  pub unused :
      assert_uninitialized rt PoolPack.reserve_len PoolPack.unpack_from_slice Pool.is_initialized
        (ledger reserve.key).bytes
      ≡ ok old
  pub manager_info : AccountInfo
  pub manager_passed : account_at accounts pool_manager ≡ ok manager_info
  pub manager : PoolManager
  pub manager_read : unpack_pool_manager rt ledger manager_info.key ≡ ok manager
  pub manager_owned : (ledger manager_info.key).owner ≡ program_id
  pub owner : AccountInfo
  pub owner_passed : account_at accounts pool_manager_owner ≡ ok owner
  pub owner_manages : manager.owner ≡ owner.key
  pub owner_signed : owner.is_signer ≡ true
  pub mint : AccountInfo
  pub mint_passed : account_at accounts liquidity_mint ≡ ok mint
  pub price_info : AccountInfo
  pub price_passed : account_at accounts pyth_price ≡ ok price_info
  pub price_owned : manager.oracle_program_id ≡ (ledger price_info.key).owner
  pub product_info : AccountInfo
  pub product_passed : account_at accounts pyth_product ≡ ok product_info
  pub product_owned : manager.oracle_program_id ≡ (ledger product_info.key).owner
  pub product : Product
  pub product_read : or_invalid_data (rt.load_product (ledger product_info.key).bytes) ≡ ok product
  pub product_priced : product.px_acc ≡ price_info.key
  pub currency : get_pyth_product_quote_currency product ≡ ok manager.quote_currency
  pub price : Decimal
  pub price_read : get_pyth_price rt price_info.key ledger ≡ ok price
  pub pool : Pool
  pub opened : IsNewPool manager_info.key mint.key price_info.key price pool
  pub stored : pack_pool rt pool reserve.key ledger ≡ ok ledger'

module _ (rt : Runtime) (program_id : Pubkey) (accounts : List AccountInfo) (ledger : Ledger) where
  init_pool-IsNewPool :
      (config : PoolConfig) (speed kink : ℕ) (use_pyth : Bool) (slot : Slot) (price : Decimal)
      (mint : Mint) (old p : Pool)
      → init_pool rt program_id accounts ledger config speed kink use_pyth slot price mint old
        ≡ ok p
      → (manager mint_info price_info : AccountInfo) × (account_at accounts pool_manager
          ≡ ok manager)
        × (account_at accounts liquidity_mint ≡ ok mint_info)
        × (account_at accounts pyth_price ≡ ok price_info)
        × IsNewPool manager.key mint_info.key price_info.key price p
  unfolding init_pool
  init_pool-IsNewPool config speed kink use_pyth slot price mint old p h =
      let (manager, p1, h1) = >>=-eq-ok (account_at accounts pool_manager) _ h in
      let (mint_info, p2, h2) = >>=-eq-ok (account_at accounts liquidity_mint) _ h1 in
      let (supply, _, h3) = >>=-eq-ok (account_at accounts liquidity_supply) _ h2 in
      let (fee_receiver, _, h4) = >>=-eq-ok (account_at accounts liquidity_fee_receiver) _ h3 in
      let (price_info, p5, h5) = >>=-eq-ok (account_at accounts pyth_price) _ h4 in
      let (c_mint, _, h6) = >>=-eq-ok (account_at accounts collateral_mint) _ h5 in
      let (c_supply, _, h7) = >>=-eq-ok (account_at accounts collateral_supply) _ h6 in
      let (un_coll, _, h8) = >>=-eq-ok (account_at accounts un_coll_supply) _ h7 in
      let backed : IsBacked p = record {
        lent = ground arith;
        claimed = ground arith;
        base_rate = ground arith;
        shares = ground arith;
        in_range = ground arith;
      } in
      (
        manager,
        mint_info,
        price_info,
        p1,
        p2,
        p5,
        record {
          version = ground arith;
          backed = backed;
          empty = ground arith;
          unlocked = ground arith;
          manager = ground arith;
          mint = ground arith;
          oracle = ground arith;
          priced = ground arith;
        },
      )

module _ (rt : Runtime) (program_id : Pubkey) (accounts : List AccountInfo) where
  -- A pool is opened with success only if the owner of its manager has signed. The manager and the
  -- pool's account belong to the program, and no pool was initialised in that account; the oracle's
  -- product and price belong to the manager's oracle program, and the product names this price and
  -- the manager's quote currency. The pool that is stored has the current version, no tokens,
  -- shares, loans or claims, is unlocked, and has the manager, the mint and the oracle's price that
  -- were passed.
  pub process_init_pool-IsOpening :
      (ledger ledger' : Ledger) (config : PoolConfig) (speed kink : ℕ) (use_pyth : Bool)
      → process_init_pool rt program_id accounts ledger config speed kink use_pyth ≡ ok ledger'
      → IsOpening rt program_id accounts ledger ledger'
  unfolding process_init_pool
  process_init_pool-IsOpening ledger ledger' config speed kink use_pyth h =
      let (slot, reserves, h1) = >>=-eq-ok (check_reserve rt program_id accounts ledger) _ h in
      let (_, _, h2) = >>=-eq-ok (check_fee_receiver rt program_id accounts ledger) _ h1 in
      let (manager, manages, h3) = >>=-eq-ok (check_manager rt program_id accounts ledger) _ h2 in
      let (price, prices, h4) =
        >>=-eq-ok (check_oracle rt program_id accounts ledger manager) _ h3 in
      let ((mint, old), unused, h5) =
        >>=-eq-ok (uninitialized_pool rt program_id accounts ledger) _ h4 in
      let (p, inits, h6) =
        >>=-eq-ok
          (init_pool rt program_id accounts ledger config speed kink use_pyth slot price mint old) _
          h5 in
      let (reserve, passed0, stores) = >>=-eq-ok (account_at accounts reserve_account) _ h6 in
      let (reserve1, passed1, owned) =
        check_reserve-eq_ok rt program_id accounts ledger slot reserves in
      let (manager_info, owner, passed2, reads, manager_owned, passed3, manages', signs) =
        check_manager-eq_ok rt program_id accounts ledger manager manages in
      let (
        product_info, price_info, mint_info, product, passed4, product_owned, passed5, price_owned,
        loads, checks, passed6, reads_price,
      ) =
        check_oracle-eq_ok rt program_id accounts ledger manager price prices in
      let (product_priced, currency) =
        check_product-eq_ok product price_info.key manager.quote_currency checks in
      let (reserve2, passed7, unused') =
        uninitialized_pool-eq_ok rt program_id accounts ledger mint old unused in
      let (manager1, mint1, price1, passed8, passed9, passed10, new) =
        init_pool-IsNewPool rt program_id accounts ledger config speed kink use_pyth slot price mint
          old p inits in
      let same1 : reserve1 ≡ reserve = cc in
      let same2 : reserve2 ≡ reserve = cc in
      let same3 : manager1 ≡ manager_info = cc in
      let same4 : mint1 ≡ mint_info = cc in
      let same5 : price1 ≡ price_info = cc in
      record {
        reserve = reserve;
        reserve_passed = passed0;
        reserve_owned = rw same1 at owned;
        old = old;
        unused = rw same2 at unused';
        manager_info = manager_info;
        manager_passed = passed2;
        manager = manager;
        manager_read = reads;
        manager_owned = manager_owned;
        owner = owner;
        owner_passed = passed3;
        owner_manages = manages';
        owner_signed = signs;
        mint = mint_info;
        mint_passed = passed6;
        price_info = price_info;
        price_passed = passed5;
        price_owned = price_owned;
        product_info = product_info;
        product_passed = passed4;
        product_owned = product_owned;
        product = product;
        product_read = loads;
        product_priced = product_priced;
        currency = currency;
        price = price;
        price_read = reads_price;
        pool = p;
        opened = rw (same3, same4, same5) at new;
        stored = stores;
      }
