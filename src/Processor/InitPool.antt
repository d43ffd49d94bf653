-- ===== src/Processor/InitPool.antt =====
-- `process_init_pool` (src/processor.rs): a new pool, for a mint that the oracle prices in the currency
-- of the pool manager. The accounts are passed by index.
pub mod Checks
pub mod Opening
use allwinprotocol.Base.{ℕ, Bool, not, List, [], ◌==◌, get_elem?}
use allwinprotocol.Error.{
  Result, ok, ok_or, invalid_account_owner, invalid_account_input, invalid_market_owner,
  invalid_signer, invalid_token_program, invalid_token_owner, invalid_oracle_config, ◌>>=◌, ◌>>◌,
}
use allwinprotocol.Math.Decimal.{Decimal}
use allwinprotocol.State.Common.{Pubkey, Slot}
use allwinprotocol.State.Collateral
use allwinprotocol.State.Liquidity
use allwinprotocol.State.Pool
use allwinprotocol.State.Pool.{Pool, PoolConfig}
use allwinprotocol.State.Pool.Pack as PoolPack
use allwinprotocol.State.PoolManager.{PoolManager}
use allwinprotocol.Processor.Runtime.{Ledger, AccountInfo, Product, Mint, Runtime}
use allwinprotocol.Processor.Accounts.{reject_if, unpack_pool_manager, pack_pool}
use allwinprotocol.Processor.Guards.{assert_rent_exempt, assert_uninitialized, unpack_mint}
use allwinprotocol.Processor.Oracle.{
  get_pyth_price, get_pyth_product_quote_currency, or_invalid_data,
}

abbrev pub reserve_account : ℕ
reserve_account = 0

abbrev pub liquidity_mint : ℕ
liquidity_mint = 1

abbrev pub liquidity_supply : ℕ
liquidity_supply = 2

abbrev pub liquidity_fee_receiver : ℕ
liquidity_fee_receiver = 3

abbrev pub pyth_product : ℕ
pyth_product = 4

abbrev pub pyth_price : ℕ
pyth_price = 5

abbrev pub collateral_mint : ℕ
collateral_mint = 6

abbrev pub collateral_supply : ℕ
collateral_supply = 7

abbrev pub pool_manager : ℕ
pool_manager = 8

abbrev pub pool_manager_owner : ℕ
pool_manager_owner = 9

abbrev pub un_coll_supply : ℕ
un_coll_supply = 10

abbrev pub clock_sysvar : ℕ
clock_sysvar = 11

abbrev pub rent_sysvar : ℕ
rent_sysvar = 12

abbrev pub token_program_id : ℕ
token_program_id = 13

-- `pyth::MAGIC`, `pyth::VERSION_2` and `pyth::AccountType::Product as u32`
abbrev pub pyth_magic : ℕ
pyth_magic = 0xa1b2c3d4

abbrev pub pyth_version_2 : ℕ
pyth_version_2 = 2

abbrev pub pyth_product_type : ℕ
pyth_product_type = 2

-- `accounts.get(i).ok_or(PoolingError::InvalidAccountInput)?`
unfoldable pub account_at : List AccountInfo → ℕ → Result AccountInfo
account_at accounts i = ok_or (get_elem? accounts i) invalid_account_input

unfoldable pub check_product : Product → Pubkey → ℕ → Result (Unit {0})
unfolding get_pyth_product_quote_currency
check_product product price_key currency = do
  reject_if (not (product.magic == pyth_magic)) invalid_oracle_config
  reject_if (not (product.ver == pyth_version_2)) invalid_oracle_config
  reject_if (not (product.atype == pyth_product_type)) invalid_oracle_config
  reject_if (not (product.px_acc == price_key)) invalid_oracle_config
  quote_currency ← get_pyth_product_quote_currency product
  reject_if (not (currency == quote_currency)) invalid_oracle_config

module _ (rt : Runtime) (program_id : Pubkey) (accounts : List AccountInfo) (ledger : Ledger) where
  -- Returns the current slot.
  unfoldable pub check_reserve : Result Slot
  unfolding account_at assert_rent_exempt
  check_reserve = do
    clock ← account_at accounts clock_sysvar
    slot ← rt.clock_slot clock ledger
    rent ← account_at accounts rent_sysvar
    is_exempt ← rt.rent_is_exempt rent ledger
    reserve ← account_at accounts reserve_account
    assert_rent_exempt is_exempt (ledger reserve.key)
    reject_if (not ((ledger reserve.key).owner == program_id)) invalid_account_owner
    ok slot

  unfoldable pub check_fee_receiver : Result (Unit {0})
  unfolding account_at
  check_fee_receiver = do
    receiver ← account_at accounts liquidity_fee_receiver
    reject_if (not ((ledger receiver.key).owner == rt.spl_token_id)) invalid_account_input
    token_account ← rt.unpack_token_account (ledger receiver.key).bytes
    mint ← account_at accounts liquidity_mint
    reject_if (not (token_account.mint == mint.key)) invalid_account_input

  unfoldable pub check_manager : Result PoolManager
  unfolding account_at unpack_pool_manager
  check_manager = do
    manager_info ← account_at accounts pool_manager
    manager ← unpack_pool_manager rt ledger manager_info.key
    owner ← account_at accounts pool_manager_owner
    reject_if (not (manager.owner == owner.key)) invalid_market_owner
    reject_if (not owner.is_signer) invalid_signer
    reject_if (not ((ledger manager_info.key).owner == program_id)) invalid_account_owner
    token_program ← account_at accounts token_program_id
    reject_if (not (manager.token_program_id == token_program.key)) invalid_token_program
    ok manager

  -- Returns the oracle's price.
  unfoldable pub check_oracle : PoolManager → Result Decimal
  unfolding account_at check_product get_pyth_price
  check_oracle manager = do
    product_info ← account_at accounts pyth_product
    reject_if (not (manager.oracle_program_id == (ledger product_info.key).owner))
        invalid_oracle_config
    price_info ← account_at accounts pyth_price
    reject_if (not (manager.oracle_program_id == (ledger price_info.key).owner))
        invalid_oracle_config
    product ← or_invalid_data (rt.load_product (ledger product_info.key).bytes)
    check_product product price_info.key manager.quote_currency
    mint ← account_at accounts liquidity_mint
    token_program ← account_at accounts token_program_id
    reject_if (not ((ledger mint.key).owner == token_program.key)) invalid_token_owner
    get_pyth_price rt price_info.key ledger

  -- The pool that the account holds, and the mint
  unfoldable pub uninitialized_pool : Result (Mint × Pool)
  unfolding account_at unpack_mint assert_uninitialized
  uninitialized_pool = do
    mint_info ← account_at accounts liquidity_mint
    mint ← unpack_mint rt (ledger mint_info.key).bytes
    reserve_info ← account_at accounts reserve_account
    reserve ←
        assert_uninitialized rt PoolPack.reserve_len PoolPack.unpack_from_slice Pool.is_initialized
          (ledger reserve_info.key).bytes
    ok (mint, reserve)

  -- `reserve.init(..)`, on the slot, the price and the mint
  unfoldable pub init_pool :
      (config : PoolConfig) (total_mining_speed kink_util_rate : ℕ) (use_pyth_oracle : Bool)
      → Slot
      → Decimal
      → Mint
      → Pool
      → Result Pool
  unfolding account_at Pool.init Pool.new_lottery Liquidity.new Collateral.new
  init_pool config total_mining_speed kink_util_rate use_pyth_oracle slot market_price mint
        reserve =
      do
        manager_info ← account_at accounts pool_manager
        mint_info ← account_at accounts liquidity_mint
        supply ← account_at accounts liquidity_supply
        fee_receiver ← account_at accounts liquidity_fee_receiver
        price_info ← account_at accounts pyth_price
        collateral_mint_info ← account_at accounts collateral_mint
        collateral_supply_info ← account_at accounts collateral_supply
        un_coll ← account_at accounts un_coll_supply
        ok (
            Pool.init reserve (record {
              current_slot = slot;
              pool_manager = manager_info.key;
              liquidity = Liquidity.new (record {
                mint_pubkey = mint_info.key;
                mint_decimals = mint.decimals;
                supply_pubkey = supply.key;
                fee_receiver = fee_receiver.key;
                use_pyth_oracle = use_pyth_oracle;
                pyth_oracle_pubkey = price_info.key;
                market_price = market_price;
              });
              collateral = Collateral.new (record {
                mint_pubkey = collateral_mint_info.key;
                supply_pubkey = collateral_supply_info.key;
              });
              config = config;
              lottery = Pool.new_lottery (record {
                un_coll_supply_account = un_coll.key;
                total_mining_speed = total_mining_speed;
                kink_util_rate = kink_util_rate;
              });
            }))

  -- The clock is read a second time before the pool's account.
  unfoldable pub process_init_pool :
      (config : PoolConfig) (total_mining_speed kink_util_rate : ℕ) (use_pyth_oracle : Bool)
      → Result Ledger
  unfolding check_reserve check_fee_receiver check_manager check_oracle uninitialized_pool init_pool
      account_at pack_pool
  process_init_pool config total_mining_speed kink_util_rate use_pyth_oracle = do
    slot ← check_reserve
    check_fee_receiver
    manager ← check_manager
    market_price ← check_oracle manager
    (mint, reserve) ← uninitialized_pool
    pool ←
        init_pool config total_mining_speed kink_util_rate use_pyth_oracle slot market_price mint
          reserve
    reserve_info ← account_at accounts reserve_account
    pack_pool rt pool reserve_info.key ledger
