-- ===== src/Processor/Principal.antt =====
-- What a sequence of the handlers' steps (src/processor.rs) does to a pool that nobody borrows from.
pub mod Packing
use allwinprotocol.Base.{ℕ, ◌+◌, ◌-◌, ◌≤◌, ◌≡◌, refl, arith, Fits, true}
use allwinprotocol.Error.{ok}
use allwinprotocol.Math.Decimal.{Decimal}
use allwinprotocol.State.Common.{Slot}
use allwinprotocol.State.Pool.{Pool}
use allwinprotocol.State.Pool.Principal.{
  IsBacked, with_funds, deposit_liquidity_exact, deposit_liquidity_fits, redeem_collateral_exact,
  refresh_index_funds,
}
use allwinprotocol.Processor.Steps.{deposit_step, redeem_step, refresh_step}

-- `Handled p q paid_in paid_out`: the steps of successful instructions lead from the pool `p` to
-- the pool `q`, the users have paid in `paid_in` tokens in all, and `paid_out` have been paid out.
pub data Handled (p : Pool) : Pool → ℕ → ℕ → Type 0 where
  start : Handled p p 0 0
  deposits :
      {q r : Pool} {paid_in paid_out : ℕ} (liquidity_amount : ℕ) {collateral_amount : ℕ}
      → Handled p q paid_in paid_out
      → Fits 64 liquidity_amount
      → deposit_step q liquidity_amount ≡ ok (collateral_amount, r)
      → Handled p r (paid_in + liquidity_amount) paid_out
  redeems :
      {q r : Pool} {paid_in paid_out : ℕ} (collateral_amount : ℕ) {liquidity_amount : ℕ}
      → Handled p q paid_in paid_out
      → Fits 64 collateral_amount
      → redeem_step q collateral_amount ≡ ok (liquidity_amount, r)
      → Handled p r paid_in (paid_out + liquidity_amount)
  refreshes :
      {q r : Pool} {paid_in paid_out : ℕ} (market_price : Decimal) (slot : Slot)
      → Handled p q paid_in paid_out
      → refresh_step q market_price slot ≡ ok r
      → Handled p r paid_in paid_out

abbrev pub stale : Pool → Pool
stale p = record p { last_update = record (p.last_update) { stale = true } }

-- One share is minted for each token, and nothing but the funds and the mark changes.
pub deposit_step-IsBacked :
    (p p' : Pool) (n m : ℕ)
    → IsBacked p
    → Fits 64 n
    → deposit_step p n ≡ ok (m, p')
    → (m ≡ n) × (p' ≡ stale (with_funds p (p.liquidity.available_amount + n))) × IsBacked p'
unfolding deposit_step
deposit_step-IsBacked p p' n m b f h =
    ground (arith, deposit_liquidity_fits p, deposit_liquidity_exact p n b, IsBacked)

-- One token is paid for each share, of those that are there.
pub redeem_step-IsBacked :
    (p p' : Pool) (n m : ℕ)
    → IsBacked p
    → Fits 64 n
    → redeem_step p n ≡ ok (m, p')
    → (m ≡ n)
      × (n ≤ p.liquidity.available_amount)
      × (p' ≡ stale (with_funds p (p.liquidity.available_amount - n)))
      × IsBacked p'
unfolding redeem_step
redeem_step-IsBacked p p' n m b f h = ground (arith, redeem_collateral_exact p n b f, IsBacked)

pub refresh_step-IsBacked :
    (p p' : Pool) (price : Decimal) (slot : Slot)
    → IsBacked p
    → refresh_step p price slot ≡ ok p'
    → IsBacked p'
      × (p'.liquidity.available_amount ≡ p.liquidity.available_amount)
      × (p'.version ≡ p.version)
unfolding refresh_step
refresh_step-IsBacked p p' price slot b h = grind (arith, refresh_index_funds, IsBacked)

-- Start from a pool in which nothing is lent or claimed and there is a share for each token. However
-- the steps of successful deposits, redemptions and refreshes follow each other, with amounts in 64
-- bits, the pool stays of that kind, and the tokens in it plus all that was paid out are the first
-- tokens plus all that was paid in.
pub principal_returned :
    {p q : Pool} {paid_in paid_out : ℕ}
    → Handled p q paid_in paid_out
    → IsBacked p
    → IsBacked q
      × (q.liquidity.available_amount + paid_out ≡ p.liquidity.available_amount + paid_in)
principal_returned start b = (b, refl)
principal_returned (deposits {q} {r} n {collateral_amount = m} h f e) b =
    let (bq, books) = principal_returned h b in
    let (same, now, br) = deposit_step-IsBacked q r n m bq f e in (br, ground arith)
principal_returned (redeems {q} {r} n {liquidity_amount = m} h f e) b =
    let (bq, books) = principal_returned h b in
    let (same, covered, now, br) = redeem_step-IsBacked q r n m bq f e in (br, ground arith)
principal_returned (refreshes {q} {r} price slot h e) b =
    let (bq, books) = principal_returned h b in
    let (br, same, _) = refresh_step-IsBacked q r price slot bq e in (br, omega arith)
