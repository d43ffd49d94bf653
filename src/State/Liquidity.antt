-- ===== src/State/Liquidity.antt =====
-- `ReserveLiquidity` (src/state/pool.rs): the tokens that a pool holds or has lent. A method that
-- fails returns no state: every caller in src/processor.rs drops its copy with the `?`.
pub mod Interest
use allwinprotocol.Base.{
  ℕ, ◌+◌, ◌<◌, Bool, true, false, ltb, ◌==◌, if◌then◌else◌, checked_add, checked_sub,
}
use allwinprotocol.Error.{Result, ok, fail, ok_or, math_overflow, insufficient_liquidity, ◌>>=◌}
use allwinprotocol.Math.Rate
use allwinprotocol.Math.Rate.{Rate}
use allwinprotocol.Math.Decimal
use allwinprotocol.Math.Decimal.{Decimal}
use allwinprotocol.State.Common.{Pubkey, default_key, slots_per_year}

pub record ReserveLiquidity : Type 0 where
  pub mint_pubkey : Pubkey
  pub mint_decimals : ℕ
  pub supply_pubkey : Pubkey
  pub fee_receiver : Pubkey
  pub use_pyth_oracle : Bool
  pub pyth_oracle_pubkey : Pubkey
  pub available_amount : ℕ
  pub borrowed_amount_wads : Decimal
  pub cumulative_borrow_rate_wads : Decimal
  pub market_price : Decimal
  pub owner_unclaimed : Decimal

-- `Default`
abbrev pub default : ReserveLiquidity
default = record {
  mint_pubkey = default_key;
  mint_decimals = 0;
  supply_pubkey = default_key;
  fee_receiver = default_key;
  use_pyth_oracle = false;
  pyth_oracle_pubkey = default_key;
  available_amount = 0;
  borrowed_amount_wads = Decimal.zero;
  cumulative_borrow_rate_wads = Decimal.zero;
  market_price = Decimal.zero;
  owner_unclaimed = Decimal.zero;
}

pub record NewReserveLiquidityParams : Type 0 where
  pub mint_pubkey : Pubkey
  pub mint_decimals : ℕ
  pub supply_pubkey : Pubkey
  pub fee_receiver : Pubkey
  pub use_pyth_oracle : Bool
  pub pyth_oracle_pubkey : Pubkey
  pub market_price : Decimal

unfoldable pub new : NewReserveLiquidityParams → ReserveLiquidity
new params = record {
  mint_pubkey = params.mint_pubkey;
  mint_decimals = params.mint_decimals;
  supply_pubkey = params.supply_pubkey;
  fee_receiver = params.fee_receiver;
  use_pyth_oracle = params.use_pyth_oracle;
  pyth_oracle_pubkey = params.pyth_oracle_pubkey;
  available_amount = 0;
  borrowed_amount_wads = Decimal.zero;
  cumulative_borrow_rate_wads = Decimal.one;
  market_price = params.market_price;
  owner_unclaimed = Decimal.zero;
}

unfoldable pub total_supply : ReserveLiquidity → Result Decimal
unfolding Decimal.from_u64 Decimal.try_add Decimal.try_sub
total_supply l = do
  all_liquidity ← Decimal.try_add (Decimal.from_u64 l.available_amount) l.borrowed_amount_wads
  if ltb all_liquidity l.owner_unclaimed
      then ok Decimal.zero
      else Decimal.try_sub all_liquidity l.owner_unclaimed

unfoldable pub deposit : ReserveLiquidity → ℕ → Result ReserveLiquidity
deposit l liquidity_amount = do
  available ← ok_or (checked_add 64 l.available_amount liquidity_amount) math_overflow
  ok (record l { available_amount = available })

unfoldable pub liquidity_amount : ReserveLiquidity → Result ℕ
unfolding Decimal.from_u64 Decimal.try_ceil_u64
liquidity_amount l =
    if ltb (Decimal.from_u64 l.available_amount) l.owner_unclaimed then ok 0 else do
      reserved ← Decimal.try_ceil_u64 l.owner_unclaimed
      ok_or (checked_sub l.available_amount reserved) math_overflow

unfoldable pub decimal_liquidity_amount : ReserveLiquidity → Result Decimal
unfolding Decimal.from_u64 Decimal.try_sub
decimal_liquidity_amount l =
    if ltb (Decimal.from_u64 l.available_amount) l.owner_unclaimed
    then ok Decimal.zero
    else Decimal.try_sub (Decimal.from_u64 l.available_amount) l.owner_unclaimed

unfoldable pub withdraw : ReserveLiquidity → ℕ → Result ReserveLiquidity
unfolding liquidity_amount
withdraw l amount = do
  free ← liquidity_amount l
  if ltb free amount then fail insufficient_liquidity else do
    available ← ok_or (checked_sub l.available_amount amount) math_overflow
    ok (record l { available_amount = available })

unfoldable pub borrow : ReserveLiquidity → Decimal → Result ReserveLiquidity
unfolding liquidity_amount Decimal.try_ceil_u64 Decimal.try_round_u64 Decimal.try_add
borrow l borrow_decimal = do
  wanted ← Decimal.try_ceil_u64 borrow_decimal
  free ← liquidity_amount l
  if ltb free wanted then fail insufficient_liquidity else do
    paid ← Decimal.try_round_u64 borrow_decimal
    available ← ok_or (checked_sub l.available_amount paid) math_overflow
    borrowed ← Decimal.try_add l.borrowed_amount_wads borrow_decimal
    ok (record l { available_amount = available; borrowed_amount_wads = borrowed })

unfoldable pub repay : ReserveLiquidity → ℕ → Decimal → Result ReserveLiquidity
unfolding Decimal.try_sub
repay l repay_amount settle_amount = do
  available ← ok_or (checked_add 64 l.available_amount repay_amount) math_overflow
  borrowed ← Decimal.try_sub l.borrowed_amount_wads settle_amount
  ok (record l { available_amount = available; borrowed_amount_wads = borrowed })

unfoldable pub utilization_rate : ReserveLiquidity → Result Rate
unfolding total_supply Decimal.try_div Rate.try_from_decimal
utilization_rate l = do
  total ← total_supply l
  if total == Decimal.zero
      then ok Rate.zero
      else if ltb l.borrowed_amount_wads Decimal.one
      then ok Rate.zero
      else if ltb total l.borrowed_amount_wads
      then ok Rate.one
      else Decimal.try_div l.borrowed_amount_wads total >>= Rate.try_from_decimal

unfoldable pub compound_interest : ReserveLiquidity → Rate → ℕ → ℕ → Result ReserveLiquidity
compound_interest l current_borrow_rate slots_elapsed reserve_owner_fee_wad = do
  slot_interest_rate ← Rate.try_div_u64 current_borrow_rate slots_per_year
  per_slot ← Rate.try_add Rate.one slot_interest_rate
  compounded_interest_rate ← Rate.try_pow per_slot slots_elapsed
  cumulative ← Decimal.try_mul_rate l.cumulative_borrow_rate_wads compounded_interest_rate
  gained ← Rate.try_sub compounded_interest_rate Rate.one
  interest ← Decimal.try_mul_rate l.borrowed_amount_wads gained
  new_unclaimed ← Decimal.try_mul_rate interest (Rate.from_scaled_val reserve_owner_fee_wad)
  unclaimed ← Decimal.try_add l.owner_unclaimed new_unclaimed
  borrowed ← Decimal.try_mul_rate l.borrowed_amount_wads compounded_interest_rate
  ok (record l {
    cumulative_borrow_rate_wads = cumulative;
    owner_unclaimed = unclaimed;
    borrowed_amount_wads = borrowed;
  })
