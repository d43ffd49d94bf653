-- ===== src/State/Pool/Dilution.antt =====
-- How many shares a deposit gets: the nearest whole number, which may be more than its value.
use native.Mathlib.Nat.{
  mul-div-mul_left, mul-le-mul_right, mul-le-mul_left, lt-div-mul-add, le-div_iff_mul-le,
  div-mul-le_self,
}
use allwinprotocol.Base.{ℕ, ◌+◌, ◌*◌, ◌/◌, ◌≤◌, ◌<◌, ◌≡◌, arith}
use allwinprotocol.Error.{ok}
use allwinprotocol.Math.Common.{wad, half_wad}
use allwinprotocol.State.Collateral
use allwinprotocol.State.Collateral.{CollateralExchangeRate}
use allwinprotocol.State.Pool
use allwinprotocol.State.Pool.{Pool}

-- The collateral for a deposit, where it is returned, is the product of rate and amount, rounded to
-- the nearest whole number and up from a half.
pub liquidity_to_collateral_nearest :
    (r : CollateralExchangeRate) (amount c : ℕ)
    → Collateral.liquidity_to_collateral r amount ≡ ok c
    → (2 * (r.rate * amount) < 2 * (c * wad) + wad) × (2 * (c * wad) ≤ 2 * (r.rate * amount) + wad)
unfolding Collateral.liquidity_to_collateral
liquidity_to_collateral_nearest r amount c h = ground arith

floor_worth : (r c q a : ℕ) → q * r ≤ wad * c * wad → a * wad ≤ q → a * r ≤ c * wad
floor_worth r c q a h k = omega (arith, mul-le-mul_right r k)

quotient_worth : (c r : ℕ) → wad * c * wad / r * r ≤ wad * c * wad
quotient_worth c r = omega arith

-- What is paid for collateral, where it is returned, is never more than the collateral is worth at
-- the rate.
pub collateral_to_liquidity_floor :
    (r : CollateralExchangeRate) (collateral amount : ℕ)
    → Collateral.collateral_to_liquidity r collateral ≡ ok amount
    → amount * r.rate ≤ collateral * wad
unfolding Collateral.collateral_to_liquidity
collateral_to_liquidity_floor r collateral amount h = ground (
  arith,
  quotient_worth collateral r.rate,
  floor_worth r.rate collateral (wad * collateral * wad / r.rate) amount,
)

-- The price of a share in a pool with one share and `2 * m` tokens.
half_price : (m : ℕ) → wad * 1 * wad / (wad * (2 * m)) ≡ wad / (2 * m)
half_price m = mul-div-mul_left {m = wad} wad (2 * m) (omega arith)

half_share : (m : ℕ) → 0 < m → m * (m + 1) ≤ half_wad → half_wad ≤ wad / (2 * m) * (m + 1)
half_share m p h = omega (
  arith,
  lt-div-mul-add {a = wad} {b = 2 * m} (omega arith),
  (le-div_iff_mul-le {k = 2 * m} {x = m} {y = wad} (omega arith)).1 (omega arith),
)

half_share_top : (m : ℕ) → 0 < m → wad / (2 * m) * (m + 1) ≤ wad
half_share_top m p =
    omega (arith, div-mul-le_self wad (2 * m), mul-le-mul_left (wad / (2 * m)) (le_twice m p))
  where
    le_twice : (m : ℕ) → 0 < m → m + 1 ≤ 2 * m
    le_twice m p = omega arith

-- One share stands for `2 * m` tokens, none of them lent or claimed.
pub record IsSkewed (p : Pool) (m : ℕ) : Type 0 where
  pub lent : p.liquidity.borrowed_amount_wads ≡ 0
  pub claimed : p.liquidity.owner_unclaimed ≡ 0
  pub shares : p.collateral.mint_total_supply ≡ 1
  pub tokens : p.liquidity.available_amount ≡ 2 * m
  pub some_tokens : 0 < m
  pub few_tokens : m * (m + 1) ≤ half_wad

skewed_price :
    (p : Pool) (m : ℕ)
    → IsSkewed p m
    → Pool.collateral_exchange_rate p ≡ ok (record { rate = wad / (2 * m) })
unfolding Pool.collateral_exchange_rate
skewed_price p m s = ground (arith, half_price m, div-mul-le_self wad (2 * m))

-- One token more than half of its tokens buys a whole share of such a pool, as much as the first
-- lender holds for `2 * m`.
pub deposit_liquidity_rounds_up :
    (p : Pool) (m : ℕ)
    → IsSkewed p m
    → Pool.deposit_liquidity p (m + 1)
      ≡ ok (
        1,
        record p {
          liquidity = record (p.liquidity) { available_amount = 3 * m + 1 };
          collateral = record (p.collateral) { mint_total_supply = 2 };
        },
      )
unfolding Pool.deposit_liquidity
deposit_liquidity_rounds_up p m s = ground (
  arith,
  skewed_price p m s,
  half_share m s.some_tokens s.few_tokens,
  half_share_top m s.some_tokens,
)
