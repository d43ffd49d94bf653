-- ===== src/State/Pool/Principal.antt =====
-- Without borrowing, a pool is worth its principal (src/state/pool.rs, and the way in which the
-- handlers of src/processor.rs call it).
use native.Mathlib.Nat.{mul-div_cancel_left}
use allwinprotocol.Base.{ℕ, ◌+◌, ◌-◌, ◌*◌, ◌/◌, ◌<◌, ◌≡◌, arith, Fits, leb, if◌then◌else◌}
use allwinprotocol.Error.{ok, fail, math_overflow}
use allwinprotocol.Math.Common.{wad}
use allwinprotocol.State.Common.{Slot}
use allwinprotocol.State.Collateral
use allwinprotocol.State.Collateral.{CollateralExchangeRate}
use allwinprotocol.State.Pool
use allwinprotocol.State.Pool.{Pool, InitPoolParams}

-- No token is lent or claimed by the owner, and there is one share for each token.
pub record IsBacked (p : Pool) : Type 0 where
  pub lent : p.liquidity.borrowed_amount_wads ≡ 0
  pub claimed : p.liquidity.owner_unclaimed ≡ 0
  pub base_rate : p.liquidity.cumulative_borrow_rate_wads ≡ wad
  pub shares : p.collateral.mint_total_supply ≡ p.liquidity.available_amount
  pub in_range : Fits 64 p.liquidity.available_amount

ratio_one : (n : ℕ) → 0 < n → wad * n * wad / (wad * n) ≡ wad
ratio_one n h = mul-div_cancel_left wad (omega arith)

-- The price of a share is one token.
rate_one : (p : Pool) → IsBacked p → Pool.collateral_exchange_rate p ≡ ok (record { rate = wad })
unfolding Pool.collateral_exchange_rate
rate_one p b = ground (arith, ratio_one p.liquidity.available_amount)

to_collateral_one :
    (n : ℕ) → Fits 64 n → Collateral.liquidity_to_collateral (record { rate = wad }) n ≡ ok n
unfolding Collateral.liquidity_to_collateral
to_collateral_one n h = ground arith

to_liquidity_one :
    (n : ℕ) → Fits 64 n → Collateral.collateral_to_liquidity (record { rate = wad }) n ≡ ok n
unfolding Collateral.collateral_to_liquidity
to_liquidity_one n h = ground arith

-- The pool after `amount` tokens and as many shares have come in, or gone out.
abbrev pub with_funds : Pool → ℕ → Pool
with_funds p n = record p {
  liquidity = record (p.liquidity) { available_amount = n };
  collateral = record (p.collateral) { mint_total_supply = n };
}

-- Where nothing is lent or claimed and there is a share for each token, a deposit succeeds if the
-- tokens then fit 64 bits; it mints one share for each token and changes nothing else.
pub deposit_liquidity_exact :
    (p : Pool) (n : ℕ)
    → IsBacked p
    → Fits 64 (p.liquidity.available_amount + n)
    → Pool.deposit_liquidity p n ≡ ok (n, with_funds p (p.liquidity.available_amount + n))
unfolding Pool.deposit_liquidity
deposit_liquidity_exact p n b h = ground (arith, rate_one p b, to_collateral_one n (omega arith))

-- Where nothing is lent or claimed and there is a share for each token, a redemption pays one token
-- for each share, up to all of them, and an amount of more shares (within 64 bits) is refused.
pub redeem_collateral_exact :
    (p : Pool) (n : ℕ)
    → IsBacked p
    → Fits 64 n
    → Pool.redeem_collateral p n ≡ (
        if leb n p.liquidity.available_amount
        then ok (n, with_funds p (p.liquidity.available_amount - n))
        else fail math_overflow)
unfolding Pool.redeem_collateral
redeem_collateral_exact p n b f = ground (arith, rate_one p b, to_liquidity_one n f)

-- Refreshing the rewards touches neither the tokens nor the shares.
pub refresh_index_funds :
    (p p' : Pool) (slot : Slot)
    → Pool.refresh_index p slot ≡ ok p'
    → p' ≡ record p { lottery = p'.lottery }
unfolding Pool.refresh_index
refresh_index_funds p p' slot h = ground arith

-- A deposit that succeeds has left the tokens within 64 bits.
pub deposit_liquidity_fits :
    (p p' : Pool) (n m : ℕ)
    → IsBacked p
    → Fits 64 n
    → Pool.deposit_liquidity p n ≡ ok (m, p')
    → Fits 64 (p.liquidity.available_amount + n)
unfolding Pool.deposit_liquidity
deposit_liquidity_fits p p' n m b f h = ground (arith, rate_one p b, to_collateral_one n f)
