-- ===== src/State/Pool/Profit.antt =====
-- A deposit that is rounded up (`liquidity_to_collateral` of src/state/pool.rs) and redeemed at once.
-- It takes a share worth several tokens, as interest on loans makes it: no handler lends as yet, so that
-- the pool's methods lead to such a pool, and the program's instructions do not.
use native.Mathlib.Nat.{
  mul-div-mul_left, mul-le-mul_left, mul-le-mul_right, lt-div-mul-add, le-div_iff_mul-le,
  div-mul-le_self, div-le_of_le-mul,
}
use allwinprotocol.Base.{ℕ, ◌+◌, ◌-◌, ◌*◌, ◌/◌, ◌≤◌, ◌<◌, ◌≡◌, refl, arith}
use allwinprotocol.Error.{Result, ok, ◌>>=◌}
use allwinprotocol.Math.Common.{wad, half_wad}
use allwinprotocol.State.Pool
use allwinprotocol.State.Pool.{Pool}
use allwinprotocol.State.Pool.Dilution.{IsSkewed, deposit_liquidity_rounds_up}

-- What one of two shares pays, in a pool of `t` tokens.
abbrev payout : ℕ → ℕ
payout t = wad * wad / (2 * wad / t) / wad

two_share_price : (t : ℕ) → wad * 2 * wad / (wad * t) ≡ 2 * wad / t
two_share_price t = mul-div-mul_left {m = wad} (2 * wad) t (omega arith)

price_bounds :
    (t : ℕ)
    → 0 < t
    → t ≤ wad
    → (2 * wad / t * t ≤ 2 * wad) × (2 * wad < 2 * wad / t * t + t) × (1 < 2 * wad / t)
price_bounds t p h = (
  div-mul-le_self (2 * wad) t,
  lt-div-mul-add {a = 2 * wad} {b = t} p,
  (le-div_iff_mul-le {k = t} {x = 2} {y = 2 * wad} p).1 (omega arith),
)

payout_lower : (t : ℕ) → 0 < t → t ≤ wad → t / 2 ≤ payout t
payout_lower t p h = (le-div_iff_mul-le {k = wad} (omega arith)).1 wads
  where
    part : t / 2 * (2 * wad / t) ≤ wad
    part = omega (arith, price_bounds t p h, mul-le-mul_left (2 * wad / t) (halves t))
      where
        halves : (t : ℕ) → 2 * (t / 2) ≤ t
        halves t = omega arith

    wads : t / 2 * wad ≤ wad * wad / (2 * wad / t)
    wads = (le-div_iff_mul-le (omega (arith, price_bounds t p h))).1 (omega (arith, part))

payout_upper : (t : ℕ) → 0 < t → t ≤ wad → payout t ≤ t
payout_upper t p h = omega (
  arith,
  div-le_of_le-mul (2 * wad / t) {m = wad * wad} {n = t * wad} (omega (arith, price_bounds t p h)),
)

redeem_half :
    (p : Pool) (t : ℕ)
    → p.liquidity.borrowed_amount_wads ≡ 0
    → p.liquidity.owner_unclaimed ≡ 0
    → p.collateral.mint_total_supply ≡ 2
    → p.liquidity.available_amount ≡ t
    → 0 < t
    → 2 * t ≤ wad
    → Pool.redeem_collateral p 1
      ≡ ok (
        payout t,
        record p {
          liquidity = record (p.liquidity) { available_amount = t - payout t };
          collateral = record (p.collateral) { mint_total_supply = 1 };
        },
      )
unfolding Pool.redeem_collateral
redeem_half p t lent claimed shares tokens pos small =
    ground
      (arith, two_share_price t, price_bounds t pos (omega arith), payout_upper t pos (omega arith))

-- Deposit, and redeem at once what the deposit returned.
abbrev pub round_trip : Pool → ℕ → Result (ℕ × Pool)
round_trip p n = Pool.deposit_liquidity p n >>= λ r. Pool.redeem_collateral r.1 r.0

-- The same pool with one share, and as many tokens as are left
abbrev pub one_share : Pool → ℕ → Pool
one_share p left = record p {
  liquidity = record (p.liquidity) { available_amount = left };
  collateral = record (p.collateral) { mint_total_supply = 1 };
}

few : (m : ℕ) → 4 ≤ m → m * (m + 1) ≤ half_wad → 2 * (3 * m + 1) ≤ wad
few m big h = omega (arith, mul-le-mul_right m big)

-- In a pool of one share and `2 * m` tokens, with nothing lent or claimed, `m` at least four and `m
-- * (m + 1)` at most half of 10^18, a deposit of `m + 1` tokens succeeds, and what it returned can
-- be redeemed at once for more than `m + 1` tokens. The pool has all tokens but those paid, fewer
-- than the first `2 * m`, and the same one share, and is otherwise as before: the profit is at the
-- cost of the first lender.
pub round_trip_profits :
    (p : Pool) (m : ℕ)
    → IsSkewed p m
    → 4 ≤ m
    → (paid left : ℕ) × (round_trip p (m + 1) ≡ ok (paid, one_share p left))
      × (m + 1 < paid)
      × (left + paid ≡ 2 * m + (m + 1))
      × (left < 2 * m)
round_trip_profits p m s big =
    let small : 2 * (3 * m + 1) ≤ wad = few m big s.few_tokens in
    let within : payout (3 * m + 1) ≤ 3 * m + 1 =
      payout_upper (3 * m + 1) (omega arith) (omega (arith, small)) in
    let more : m + 1 < payout (3 * m + 1) =
      omega (arith, payout_lower (3 * m + 1) (omega arith) (omega (arith, small))) in
    (
      payout (3 * m + 1),
      3 * m + 1 - payout (3 * m + 1),
      rw (deposit_liquidity_rounds_up p m s)
          (redeem_half _ (3 * m + 1) s.lent s.claimed refl refl (omega arith) small),
      more,
      omega (arith, within),
      omega (arith, more, within),
    )
