-- ===== src/Processor/Steps.antt =====
-- What the handlers do to a pool once their checks have passed (src/processor.rs): the call of the
-- state's method, and the mark on its last update.
use allwinprotocol.Base.{ℕ}
use allwinprotocol.Error.{Result, ok, ◌>>=◌}
use allwinprotocol.Math.Decimal.{Decimal}
use allwinprotocol.State.Common.{Slot}
use allwinprotocol.State.LastUpdate
use allwinprotocol.State.Pool
use allwinprotocol.State.Pool.{Pool}

-- Returns the collateral to mint, or the liquidity to pay.
unfoldable pub deposit_step : Pool → ℕ → Result (ℕ × Pool)
unfolding Pool.deposit_liquidity LastUpdate.mark_stale
deposit_step reserve liquidity_amount = do
  (collateral_amount, reserve') ← Pool.deposit_liquidity reserve liquidity_amount
  ok (
    collateral_amount,
    record reserve' { last_update = LastUpdate.mark_stale reserve'.last_update },
  )

unfoldable pub redeem_step : Pool → ℕ → Result (ℕ × Pool)
unfolding Pool.redeem_collateral LastUpdate.mark_stale
redeem_step reserve collateral_amount = do
  (liquidity_amount, reserve') ← Pool.redeem_collateral reserve collateral_amount
  ok (
    liquidity_amount,
    record reserve' { last_update = LastUpdate.mark_stale reserve'.last_update },
  )

-- At the price that the oracle gives.
unfoldable pub refresh_step : Pool → Decimal → Slot → Result Pool
unfolding Pool.refresh_index LastUpdate.update_slot
refresh_step reserve market_price slot = do
  reserve' ←
      Pool.refresh_index
        (record reserve { liquidity = record (reserve.liquidity) { market_price = market_price } })
        slot
  ok (record reserve' { last_update = LastUpdate.update_slot reserve'.last_update slot })
