-- ===== src/State/Collateral.antt =====
-- `ReserveCollateral` and `CollateralExchangeRate` (src/state/pool.rs): the shares of a pool, and
-- their price.
use allwinprotocol.Base.{ℕ, ◌||◌, ◌==◌, if◌then◌else◌, checked_add, checked_sub}
use allwinprotocol.Error.{Result, ok, ok_or, math_overflow, ◌>>=◌}
use allwinprotocol.Math.Rate
use allwinprotocol.Math.Rate.{Rate}
use allwinprotocol.Math.Decimal
use allwinprotocol.Math.Decimal.{Decimal}
use allwinprotocol.State.Common.{Pubkey, default_key, initial_collateral_rate}

pub record ReserveCollateral : Type 0 where
  pub mint_pubkey : Pubkey
  pub mint_total_supply : ℕ
  pub supply_pubkey : Pubkey

-- `Default`
abbrev pub default : ReserveCollateral
default = record { mint_pubkey = default_key; mint_total_supply = 0; supply_pubkey = default_key }

pub record NewReserveCollateralParams : Type 0 where
  pub mint_pubkey : Pubkey
  pub supply_pubkey : Pubkey

unfoldable pub new : NewReserveCollateralParams → ReserveCollateral
new params = record {
  mint_pubkey = params.mint_pubkey;
  mint_total_supply = 0;
  supply_pubkey = params.supply_pubkey;
}

unfoldable pub mint : ReserveCollateral → ℕ → Result ReserveCollateral
mint c collateral_amount = do
  total ← ok_or (checked_add 64 c.mint_total_supply collateral_amount) math_overflow
  ok (record c { mint_total_supply = total })

unfoldable pub burn : ReserveCollateral → ℕ → Result ReserveCollateral
burn c collateral_amount = do
  total ← ok_or (checked_sub c.mint_total_supply collateral_amount) math_overflow
  ok (record c { mint_total_supply = total })

-- `struct CollateralExchangeRate(Rate)`
pub record CollateralExchangeRate : Type 0 where
  pub rate : Rate

unfoldable pub exchange_rate : ReserveCollateral → Decimal → Result CollateralExchangeRate
unfolding Decimal.from_u64 Decimal.try_div Rate.try_from_decimal
exchange_rate c total_liquidity =
    if c.mint_total_supply == 0 || total_liquidity == Decimal.zero
    then ok (record { rate = Rate.from_scaled_val initial_collateral_rate })
    else do
      quotient ← Decimal.try_div (Decimal.from_u64 c.mint_total_supply) total_liquidity
      rate ← Rate.try_from_decimal quotient
      ok (record { rate = rate })

unfoldable pub collateral_to_liquidity : CollateralExchangeRate → ℕ → Result ℕ
unfolding Decimal.from_u64 Decimal.try_div_rate Decimal.try_floor_u64
collateral_to_liquidity r collateral_amount =
    Decimal.try_div_rate (Decimal.from_u64 collateral_amount) r.rate >>= Decimal.try_floor_u64

unfoldable pub decimal_collateral_to_liquidity : CollateralExchangeRate → Decimal → Result Decimal
unfolding Decimal.try_div_rate
decimal_collateral_to_liquidity r collateral_amount = Decimal.try_div_rate collateral_amount r.rate

unfoldable pub liquidity_to_collateral : CollateralExchangeRate → ℕ → Result ℕ
unfolding Rate.try_mul_u64 Rate.try_round_u64
liquidity_to_collateral r liquidity_amount =
    Rate.try_mul_u64 r.rate liquidity_amount >>= Rate.try_round_u64

unfoldable pub decimal_liquidity_to_collateral : CollateralExchangeRate → Decimal → Result Decimal
unfolding Decimal.try_mul_rate
decimal_liquidity_to_collateral r liquidity_amount = Decimal.try_mul_rate liquidity_amount r.rate

-- `From<CollateralExchangeRate> for Rate`
unfoldable pub into_rate : CollateralExchangeRate → Rate
into_rate r = r.rate
