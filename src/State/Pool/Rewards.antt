-- ===== src/State/Pool/Rewards.antt =====
-- The mining rewards that `refresh_index` accrues (src/state/pool.rs).
use allwinprotocol.Base.{ℕ, ◌+◌, ◌-◌, ◌*◌, ◌/◌, ◌^◌, ◌≤◌, ◌<◌, ◌≡◌, refl, arith, Fits}
use allwinprotocol.Error.{ok}
use allwinprotocol.Math.Common.{wad}
use allwinprotocol.State.Common.{Slot}
use allwinprotocol.State.Pool
use allwinprotocol.State.Pool.{Pool}
use allwinprotocol.State.Pool.Principal.{IsBacked}

abbrev pub with_lend_index : Pool → ℕ → Pool
with_lend_index p index = record p { lottery = record (p.lottery) { l_token_mining_index = index } }

-- Both sides get the rate 1 / 50% = 2.
mine_ratio_two : Pool.get_mine_ratio ≡ ok (2 * wad, 2 * wad)
unfolding Pool.get_mine_ratio
mine_ratio_two = refl

accrued_two :
    (speed slot last : ℕ)
    → last ≤ slot
    → speed * (slot - last) < 2 ^ 70
    → Pool.accrued speed slot last (2 * wad) ≡ ok (2 * wad * (speed * (slot - last)))
unfolding Pool.accrued
accrued_two speed slot last h f = ground arith

-- In a pool with shares in which nothing is lent or claimed and there is a share for each token, the
-- index of each share grows by twice the mining speed for each slot since the last update, divided
-- by the number of shares and rounded down, and nothing else changes: all lenders together accrue
-- twice `total_mining_speed`. This is for a slot that is not before the last update, a reward under
-- 2^70 in all, and a new index within 192 bits.
pub refresh_index_rewards :
    (p : Pool) (slot : Slot) (elapsed reward index : ℕ)
    → IsBacked p
    → 0 < p.collateral.mint_total_supply
    → slot ≡ p.last_update.slot + elapsed
    → reward ≡ 2 * (p.lottery.total_mining_speed * elapsed)
    → reward < 2 ^ 70
    → index ≡ p.lottery.l_token_mining_index + wad * reward / p.collateral.mint_total_supply
    → Fits 192 index
    → Pool.refresh_index p slot ≡ ok (with_lend_index p index)
unfolding Pool.refresh_index
refresh_index_rewards p slot elapsed reward index b pos at_slot rewarded small new fits =
    let same : slot - p.last_update.slot ≡ elapsed = omega arith in
    let accrued = accrued_two p.lottery.total_mining_speed slot p.last_update.slot (omega arith) in
    ground (arith, same, accrued)
