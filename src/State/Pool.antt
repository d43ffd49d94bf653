-- ===== src/State/Pool.antt =====
-- `Pool` (src/state/pool.rs): deposits, redemptions and the accrual of mining rewards.
pub mod Principal
pub mod Rewards
pub mod Dilution
pub mod Profit
pub mod Pack
pub mod Repack
pub mod Amounts
use allwinprotocol.Base.{ℕ, Bool, true, false, not, ltb, ◌==◌, if◌then◌else◌, checked_sub}
use allwinprotocol.Error.{Result, ok, ok_or, math_overflow, ◌>>=◌}
use allwinprotocol.Math.Rate
use allwinprotocol.Math.Rate.{Rate}
use allwinprotocol.Math.Decimal
use allwinprotocol.Math.Decimal.{Decimal}
use allwinprotocol.State.Common.{Pubkey, default_key, Slot, program_version, uninitialized_version}
use allwinprotocol.State.LastUpdate
use allwinprotocol.State.LastUpdate.{LastUpdate}
use allwinprotocol.State.Liquidity
use allwinprotocol.State.Liquidity.{ReserveLiquidity}
use allwinprotocol.State.Collateral
use allwinprotocol.State.Collateral.{ReserveCollateral, CollateralExchangeRate}

pub record PoolConfig : Type 0 where
  pub deposit_paused : Bool

pub record Lottery : Type 0 where
  pub un_coll_supply_account : Pubkey
  pub l_token_mining_index : Decimal
  pub borrow_mining_index : Decimal
  pub total_mining_speed : ℕ
  pub kink_util_rate : ℕ

pub record InitBonusParams : Type 0 where
  pub un_coll_supply_account : Pubkey
  pub total_mining_speed : ℕ
  pub kink_util_rate : ℕ

-- `Lottery::new`
unfoldable pub new_lottery : InitBonusParams → Lottery
new_lottery params = record {
  un_coll_supply_account = params.un_coll_supply_account;
  l_token_mining_index = Decimal.zero;
  borrow_mining_index = Decimal.zero;
  total_mining_speed = params.total_mining_speed;
  kink_util_rate = params.kink_util_rate;
}

pub record Pool : Type 0 where
  pub version : ℕ
  pub last_update : LastUpdate
  pub pool_manager : Pubkey
  pub liquidity : ReserveLiquidity
  pub collateral : ReserveCollateral
  pub config : PoolConfig
  pub lottery : Lottery
  pub reentry_lock : Bool

-- `Default`
abbrev pub default_config : PoolConfig
default_config = record { deposit_paused = false }

abbrev pub default_lottery : Lottery
default_lottery = record {
  un_coll_supply_account = default_key;
  l_token_mining_index = Decimal.zero;
  borrow_mining_index = Decimal.zero;
  total_mining_speed = 0;
  kink_util_rate = 0;
}

abbrev pub default : Pool
default = record {
  version = uninitialized_version;
  last_update = LastUpdate.default;
  pool_manager = default_key;
  liquidity = Liquidity.default;
  collateral = Collateral.default;
  config = default_config;
  lottery = default_lottery;
  reentry_lock = false;
}

pub record InitPoolParams : Type 0 where
  pub current_slot : Slot
  pub pool_manager : Pubkey
  pub liquidity : ReserveLiquidity
  pub collateral : ReserveCollateral
  pub config : PoolConfig
  pub lottery : Lottery

-- `init` sets every field of `self`.
unfoldable pub init : Pool → InitPoolParams → Pool
unfolding LastUpdate.new
init p params = record p {
  version = program_version;
  last_update = LastUpdate.new params.current_slot;
  pool_manager = params.pool_manager;
  liquidity = params.liquidity;
  collateral = params.collateral;
  config = params.config;
  lottery = params.lottery;
  reentry_lock = false;
}

unfoldable pub new : InitPoolParams → Pool
unfolding init
new params = init default params

unfoldable pub is_initialized : Pool → Bool
is_initialized p = not (p.version == uninitialized_version)

-- The shares of the reward that go to lenders and to borrowers.
unfoldable pub get_mine_ratio : Result (Rate × Rate)
unfolding Rate.from_percent Rate.try_div
get_mine_ratio = do
  lend_side ← Rate.try_div Rate.one (Rate.from_percent 50)
  borrow_side ← Rate.try_div Rate.one (Rate.from_percent 50)
  ok (lend_side, borrow_side)

-- `Decimal::from(speed).try_mul(slot - last)?.try_mul(ratio)?`, then what the caller divides by
unfoldable pub accrued : ℕ → Slot → Slot → Rate → Result Decimal
unfolding Decimal.from_u64 Decimal.try_mul_u64 Decimal.try_mul_rate
accrued speed slot last ratio = do
  elapsed ← ok_or (checked_sub slot last) math_overflow
  mined ← Decimal.try_mul_u64 (Decimal.from_u64 speed) elapsed
  Decimal.try_mul_rate mined ratio

-- The second half of `refresh_index`: the borrowers' index.
unfoldable pub refresh_borrow_index : Pool → Slot → Rate → Result Pool
unfolding accrued Decimal.try_div Decimal.try_add
refresh_borrow_index p slot borrow_side_mine_ratio = do
  original_share ←
      Decimal.try_div p.liquidity.borrowed_amount_wads p.liquidity.cumulative_borrow_rate_wads
  if ltb original_share Decimal.one then ok p else do
    mined ← accrued p.lottery.total_mining_speed slot p.last_update.slot borrow_side_mine_ratio
    per_share ← Decimal.try_div mined original_share
    index ← Decimal.try_add p.lottery.borrow_mining_index per_share
    ok (record p { lottery = record (p.lottery) { borrow_mining_index = index } })

unfoldable pub refresh_index : Pool → Slot → Result Pool
unfolding get_mine_ratio accrued refresh_borrow_index Decimal.try_div_u64 Decimal.try_add
refresh_index p slot = if p.collateral.mint_total_supply == 0 then ok p else do
  (lend_side_mine_ratio, borrow_side_mine_ratio) ← get_mine_ratio
  mined ← accrued p.lottery.total_mining_speed slot p.last_update.slot lend_side_mine_ratio
  per_share ← Decimal.try_div_u64 mined p.collateral.mint_total_supply
  index ← Decimal.try_add p.lottery.l_token_mining_index per_share
  refresh_borrow_index (record p { lottery = record (p.lottery) { l_token_mining_index = index } })
      slot borrow_side_mine_ratio

unfoldable pub collateral_exchange_rate : Pool → Result CollateralExchangeRate
unfolding Liquidity.total_supply Collateral.exchange_rate
collateral_exchange_rate p = do
  total_liquidity ← Liquidity.total_supply p.liquidity
  Collateral.exchange_rate p.collateral total_liquidity

-- Returns the collateral to mint.
unfoldable pub deposit_liquidity : Pool → ℕ → Result (ℕ × Pool)
unfolding collateral_exchange_rate Collateral.liquidity_to_collateral Liquidity.deposit
    Collateral.mint
deposit_liquidity p liquidity_amount = do
  rate ← collateral_exchange_rate p
  collateral_amount ← Collateral.liquidity_to_collateral rate liquidity_amount
  liquidity ← Liquidity.deposit p.liquidity liquidity_amount
  collateral ← Collateral.mint p.collateral collateral_amount
  ok (collateral_amount, record p { liquidity = liquidity; collateral = collateral })

-- Returns the liquidity to pay out.
unfoldable pub redeem_collateral : Pool → ℕ → Result (ℕ × Pool)
unfolding collateral_exchange_rate Collateral.collateral_to_liquidity Liquidity.withdraw
    Collateral.burn
redeem_collateral p collateral_amount = do
  rate ← collateral_exchange_rate p
  liquidity_amount ← Collateral.collateral_to_liquidity rate collateral_amount
  collateral ← Collateral.burn p.collateral collateral_amount
  liquidity ← Liquidity.withdraw p.liquidity liquidity_amount
  ok (liquidity_amount, record p { liquidity = liquidity; collateral = collateral })
