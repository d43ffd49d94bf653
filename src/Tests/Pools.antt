-- ===== src/Tests/Pools.antt =====
-- The theorems on pools at concrete inputs.
use allwinprotocol.Base.{ℕ, ◌+◌, ◌-◌, ◌*◌, ◌<◌, ◌≤◌, ◌≡◌, refl, arith, leb, if◌then◌else◌}
use allwinprotocol.Error.{ok, fail, math_overflow, ◌>>=◌}
use allwinprotocol.Math.Common.{wad}
use allwinprotocol.Math.Rate
use allwinprotocol.Math.Decimal
use allwinprotocol.State.Common.{slots_per_year}
use allwinprotocol.State.Liquidity
use allwinprotocol.State.Liquidity.{ReserveLiquidity}
use allwinprotocol.State.Liquidity.Interest.{
  compound_interest_grows, IsCovered, withdraw-IsCovered, borrow-IsCovered, repay-borrow,
}
use allwinprotocol.State.Collateral
use allwinprotocol.State.Pool
use allwinprotocol.State.Pool.{Pool}
use allwinprotocol.State.Pool.Principal.{
  IsBacked, with_funds, deposit_liquidity_exact, redeem_collateral_exact,
}
use allwinprotocol.State.Pool.Rewards.{with_lend_index, refresh_index_rewards}
use allwinprotocol.State.Pool.Dilution.{
  IsSkewed, liquidity_to_collateral_nearest, collateral_to_liquidity_floor,
}
use allwinprotocol.State.Pool.Profit.{round_trip, one_share, round_trip_profits}
use allwinprotocol.Processor.Steps.{deposit_step, redeem_step, refresh_step}
use allwinprotocol.Processor.Principal.{
  start, deposits, redeems, refreshes, stale, principal_returned,
}
use allwinprotocol.Tests.Data.{liquidity, pool}

abbrev backed : Pool
backed = pool 1000 1000

backed-IsBacked : IsBacked backed
backed-IsBacked = record {
  lent = refl;
  claimed = refl;
  base_rate = refl;
  shares = refl;
  in_range = omega arith;
}

deposit_liquidity_exact_example : Pool.deposit_liquidity backed 5 ≡ ok (5, with_funds backed 1005)
deposit_liquidity_exact_example = deposit_liquidity_exact backed 5 backed-IsBacked (omega arith)

redeem_collateral_exact_example :
    Pool.redeem_collateral backed 1001
    ≡ (if leb 1001 1000 then ok (1001, with_funds backed (1000 - 1001)) else fail math_overflow)
redeem_collateral_exact_example = redeem_collateral_exact backed 1001 backed-IsBacked (omega arith)

abbrev after_deposit : Pool
after_deposit = stale (with_funds backed 1500)

abbrev after_refresh : Pool
after_refresh = with_funds backed 1500

abbrev after_redemption : Pool
after_redemption = stale (with_funds backed 1300)

deposited : deposit_step backed 500 ≡ ok (500, after_deposit)
unfolding deposit_step
deposited = refl

refreshed : refresh_step after_deposit (3 * wad) 100 ≡ ok after_refresh
unfolding refresh_step
refreshed = refl

redeemed : redeem_step after_refresh 200 ≡ ok (200, after_redemption)
unfolding redeem_step
redeemed = refl

principal_returned_example : IsBacked after_redemption × (1300 + (0 + 200) ≡ 1000 + (0 + 500))
principal_returned_example =
    principal_returned
      (redeems 200 (refreshes (3 * wad) 100 (deposits 500 start (omega arith) deposited) refreshed)
        (omega arith) redeemed)
      backed-IsBacked

refresh_index_rewards_example :
    Pool.refresh_index backed 110 ≡ ok (with_lend_index backed 5_140_000_000_000_000_000)
refresh_index_rewards_example =
    refresh_index_rewards backed 110 10 140 5_140_000_000_000_000_000 backed-IsBacked (omega arith)
      refl refl (omega arith) refl (omega arith)

abbrev lent : ReserveLiquidity
lent = liquidity 1000 (2000 * wad) (10 * wad)

lent-IsCovered : IsCovered lent
lent-IsCovered = omega arith

-- Three slots at 20% a year, of which the owner takes 10%
abbrev grown : ReserveLiquidity
grown = record lent {
  borrowed_amount_wads = 2_000_000_015_220_700_184_000;
  cumulative_borrow_rate_wads = 1_000_000_007_610_350_092;
  owner_unclaimed = 10_000_001_522_070_018_400;
}

accrued :
    Liquidity.compound_interest lent 200_000_000_000_000_000 3 100_000_000_000_000_000 ≡ ok grown
unfolding Liquidity.compound_interest Rate.try_div_u64 Rate.try_add Rate.try_pow Rate.try_mul
    Rate.mul_if_odd Decimal.try_mul_rate Rate.try_sub Decimal.try_add
accrued = refl

compound_interest_grows_example :
    (grown.available_amount ≡ lent.available_amount)
    × (wad ≤ grown.cumulative_borrow_rate_wads)
    × (10 * wad ≤ grown.owner_unclaimed)
    × (2000 * wad + grown.owner_unclaimed ≤ grown.borrowed_amount_wads + 10 * wad)
compound_interest_grows_example =
    compound_interest_grows lent grown 200_000_000_000_000_000 3 100_000_000_000_000_000
      (omega arith) accrued

withdrawn : Liquidity.withdraw lent 990 ≡ ok (liquidity 10 (2000 * wad) (10 * wad))
unfolding Liquidity.withdraw
withdrawn = refl

withdraw-IsCovered_example : IsCovered (liquidity 10 (2000 * wad) (10 * wad)) × (10 + 990 ≡ 1000)
withdraw-IsCovered_example =
    withdraw-IsCovered lent (liquidity 10 (2000 * wad) (10 * wad)) 990 lent-IsCovered withdrawn

borrowed : Liquidity.borrow lent (Decimal.from_u64 600) ≡ ok (liquidity 400 (2600 * wad) (10 * wad))
unfolding Liquidity.borrow
borrowed = refl

borrow-IsCovered_example :
    IsCovered (liquidity 400 (2600 * wad) (10 * wad))
    × (2600 * wad ≡ 2000 * wad + Decimal.from_u64 600)
borrow-IsCovered_example =
    borrow-IsCovered lent (liquidity 400 (2600 * wad) (10 * wad)) (Decimal.from_u64 600)
      lent-IsCovered borrowed

repay-borrow_example :
    Liquidity.repay (liquidity 400 (2600 * wad) (10 * wad)) 600 (Decimal.from_u64 600) ≡ ok lent
repay-borrow_example =
    repay-borrow lent (liquidity 400 (2600 * wad) (10 * wad)) 600 (omega arith) (omega arith)
      borrowed

-- Two thirds of a share for each token
to_collateral :
    Collateral.liquidity_to_collateral (record { rate = 666_666_666_666_666_666 }) 10 ≡ ok 7
unfolding Collateral.liquidity_to_collateral
to_collateral = refl

liquidity_to_collateral_nearest_example :
    (2 * (666_666_666_666_666_666 * 10) < 2 * (7 * wad) + wad)
    × (2 * (7 * wad) ≤ 2 * (666_666_666_666_666_666 * 10) + wad)
liquidity_to_collateral_nearest_example =
    liquidity_to_collateral_nearest (record { rate = 666_666_666_666_666_666 }) 10 7 to_collateral

to_liquidity :
    Collateral.collateral_to_liquidity (record { rate = 666_666_666_666_666_666 }) 7 ≡ ok 10
unfolding Collateral.collateral_to_liquidity
to_liquidity = refl

collateral_to_liquidity_floor_example : 10 * 666_666_666_666_666_666 ≤ 7 * wad
collateral_to_liquidity_floor_example =
    collateral_to_liquidity_floor (record { rate = 666_666_666_666_666_666 }) 7 10 to_liquidity

-- One token is deposited in a new pool for one share, lent for a year at a rate of 200%, and paid
-- back with the interest, rounded up to eight tokens.
first_share : Pool.deposit_liquidity (pool 0 0) 1 ≡ ok (1, pool 1 1)
unfolding Pool.deposit_liquidity
first_share = refl

abbrev repaid : ReserveLiquidity
repaid = record (liquidity 8 0 0) { cumulative_borrow_rate_wads = 7_389_055_911_229_027_809 }

lent_and_repaid :
    (do
      given ← Liquidity.borrow (liquidity 1 0 0) (Decimal.from_u64 1)
      owed ← Liquidity.compound_interest given (2 * wad) slots_per_year 0
      due ← Decimal.try_ceil_u64 owed.borrowed_amount_wads
      Liquidity.repay owed due owed.borrowed_amount_wads)
    ≡ ok repaid
unfolding Liquidity.borrow Liquidity.compound_interest Liquidity.repay Rate.try_div_u64 Rate.try_add
    Rate.try_pow Rate.try_mul Rate.mul_if_odd Decimal.try_mul_rate Rate.try_sub Decimal.try_add
    Decimal.try_ceil_u64
lent_and_repaid = refl

abbrev skewed : Pool
skewed = record (pool 8 1) { liquidity = repaid }

skewed-IsSkewed : IsSkewed skewed 4
skewed-IsSkewed = record {
  lent = refl;
  claimed = refl;
  shares = refl;
  tokens = refl;
  some_tokens = omega arith;
  few_tokens = omega arith;
}

-- Five tokens in, six out, and seven left for the first share
round_trip_profits_example :
    (paid left : ℕ) × (round_trip skewed 5 ≡ ok (paid, one_share skewed left))
    × (5 < paid)
    × (left + paid ≡ 2 * 4 + 5)
    × (left < 2 * 4)
round_trip_profits_example = round_trip_profits skewed 4 skewed-IsSkewed (omega arith)
