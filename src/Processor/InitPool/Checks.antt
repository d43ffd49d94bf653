-- ===== src/Processor/InitPool/Checks.antt =====
-- What each part of the checks of `process_init_pool` (src/processor.rs) establishes.
use allwinprotocol.Base.{ℕ, Bool, ◌≡◌, true, not, List, arith, ◌==◌, ==→≡}
use allwinprotocol.Error.{ok, PoolingError, >>=-eq-ok, invalid_oracle_config, invalid_token_owner}
use allwinprotocol.Math.Decimal.{Decimal}
use allwinprotocol.State.Common.{Pubkey, Slot}
use allwinprotocol.State.Pool
use allwinprotocol.State.Pool.{Pool, PoolConfig}
use allwinprotocol.State.Pool.Pack as PoolPack
use allwinprotocol.State.PoolManager.{PoolManager}
use allwinprotocol.Processor.Runtime.{Ledger, AccountInfo, Product, Mint, Runtime}
use allwinprotocol.Processor.Accounts.{reject_if, unpack_pool_manager}
use allwinprotocol.Processor.Exchange.{require-eq-ok}
use allwinprotocol.Processor.Guards.{assert_uninitialized}
use allwinprotocol.Processor.Oracle.{
  get_pyth_price, get_pyth_product_quote_currency, or_invalid_data,
}
use allwinprotocol.Processor.InitPool.{
  reserve_account, liquidity_mint, pyth_product, pyth_price, pool_manager, pool_manager_owner,
  token_program_id, pyth_magic, pyth_version_2, pyth_product_type, account_at, check_product,
  check_reserve, check_manager, check_oracle, uninitialized_pool,
}

passed : (b : Bool) (e : PoolingError) → reject_if (not b) e ≡ ok tt → b ≡ true
passed b e h = ground arith

pub check_product-eq_ok :
    (product : Product) (price_key : Pubkey) (currency : ℕ)
    → check_product product price_key currency ≡ ok tt
    → (product.px_acc ≡ price_key) × (get_pyth_product_quote_currency product ≡ ok currency)
unfolding check_product
check_product-eq_ok product price_key currency h =
    let (_, h1) = require-eq-ok product.magic pyth_magic invalid_oracle_config _ h in
    let (_, h2) = require-eq-ok product.ver pyth_version_2 invalid_oracle_config _ h1 in
    let (_, h3) = require-eq-ok product.atype pyth_product_type invalid_oracle_config _ h2 in
    let (priced, h4) = require-eq-ok product.px_acc price_key invalid_oracle_config _ h3 in
    let (quote_currency, quoted, h5) = >>=-eq-ok (get_pyth_product_quote_currency product) _ h4 in
    let same = passed (currency == quote_currency) invalid_oracle_config h5 in
    (priced, rw (==→≡ currency quote_currency same) quoted)

module _ (rt : Runtime) (program_id : Pubkey) (accounts : List AccountInfo) (ledger : Ledger) where
  pub check_reserve-eq_ok :
      (slot : Slot)
      → check_reserve rt program_id accounts ledger ≡ ok slot
      → (reserve : AccountInfo) × (account_at accounts reserve_account ≡ ok reserve)
        × ((ledger reserve.key).owner ≡ program_id)
  unfolding check_reserve
  check_reserve-eq_ok slot h = ground arith

  pub check_manager-eq_ok :
      (manager : PoolManager)
      → check_manager rt program_id accounts ledger ≡ ok manager
      → (info owner : AccountInfo) × (account_at accounts pool_manager ≡ ok info)
        × (unpack_pool_manager rt ledger info.key ≡ ok manager)
        × ((ledger info.key).owner ≡ program_id)
        × (account_at accounts pool_manager_owner ≡ ok owner)
        × (manager.owner ≡ owner.key)
        × (owner.is_signer ≡ true)
  unfolding check_manager
  check_manager-eq_ok manager h = ground arith

  pub check_oracle-eq_ok :
      (manager : PoolManager) (price : Decimal)
      → check_oracle rt program_id accounts ledger manager ≡ ok price
      → (product_info price_info mint : AccountInfo) × (product : Product) × (account_at accounts
            pyth_product
          ≡ ok product_info)
        × (manager.oracle_program_id ≡ (ledger product_info.key).owner)
        × (account_at accounts pyth_price ≡ ok price_info)
        × (manager.oracle_program_id ≡ (ledger price_info.key).owner)
        × (or_invalid_data (rt.load_product (ledger product_info.key).bytes) ≡ ok product)
        × (check_product product price_info.key manager.quote_currency ≡ ok tt)
        × (account_at accounts liquidity_mint ≡ ok mint)
        × (get_pyth_price rt price_info.key ledger ≡ ok price)
  unfolding check_oracle
  check_oracle-eq_ok manager price h =
      let (product_info, passed1, h1) = >>=-eq-ok (account_at accounts pyth_product) _ h in
      let (owned1, h2) =
        require-eq-ok manager.oracle_program_id (ledger product_info.key).owner
          invalid_oracle_config _ h1 in
      let (price_info, passed2, h3) = >>=-eq-ok (account_at accounts pyth_price) _ h2 in
      let (owned2, h4) =
        require-eq-ok manager.oracle_program_id (ledger price_info.key).owner invalid_oracle_config
          _ h3 in
      let (product, loads, h5) =
        >>=-eq-ok (or_invalid_data (rt.load_product (ledger product_info.key).bytes)) _ h4 in
      let (_, checks, h6) =
        >>=-eq-ok (check_product product price_info.key manager.quote_currency) _ h5 in
      let (mint, passed3, h7) = >>=-eq-ok (account_at accounts liquidity_mint) _ h6 in
      let (token_program, _, h8) = >>=-eq-ok (account_at accounts token_program_id) _ h7 in
      let (_, prices) =
        require-eq-ok (ledger mint.key).owner token_program.key invalid_token_owner _ h8 in
      (
        product_info, price_info, mint, product, passed1, owned1, passed2, owned2, loads, checks,
        passed3, prices,
      )

  pub uninitialized_pool-eq_ok :
      (mint : Mint) (old : Pool)
      → uninitialized_pool rt program_id accounts ledger ≡ ok (mint, old)
      → (reserve : AccountInfo) × (account_at accounts reserve_account ≡ ok reserve)
        × (assert_uninitialized rt PoolPack.reserve_len PoolPack.unpack_from_slice
              Pool.is_initialized
              (ledger reserve.key).bytes
            ≡ ok old)
  unfolding uninitialized_pool
  uninitialized_pool-eq_ok mint old h = ground arith
