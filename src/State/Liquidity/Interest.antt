-- ===== src/State/Liquidity/Interest.antt =====
-- What interest, loans and repayments do to the books of a reserve (src/state/pool.rs).
use allwinprotocol.Base.{ℕ, ◌+◌, ◌*◌, ◌≤◌, ◌≡◌, arith, Fits}
use allwinprotocol.Error.{ok}
use allwinprotocol.Math.Common.{wad}
use allwinprotocol.Math.Rate
use allwinprotocol.Math.Rate.{Rate}
use allwinprotocol.Math.Pow.{try_pow_ge_one}
use allwinprotocol.Math.Decimal
use allwinprotocol.Math.Decimal.{Decimal}
use allwinprotocol.State.Liquidity
use allwinprotocol.State.Liquidity.{ReserveLiquidity}

-- The owner's part of the interest is at most the growth of the debt.
interest_split :
    (borrowed rate gained interest fee unclaimed grown : ℕ)
    → Rate.one ≤ rate
    → fee ≤ wad
    → Rate.try_sub rate Rate.one ≡ ok gained
    → Decimal.try_mul_rate borrowed gained ≡ ok interest
    → Decimal.try_mul_rate interest fee ≡ ok unclaimed
    → Decimal.try_mul_rate borrowed rate ≡ ok grown
    → (borrowed + unclaimed ≤ grown) × (unclaimed ≤ interest)
unfolding Rate.try_sub Decimal.try_mul_rate
interest_split borrowed rate gained interest fee unclaimed grown one_le fee_le hg hi hu hb =
    grind arith

mul_rate_ge : (d r e : ℕ) → Rate.one ≤ r → Decimal.try_mul_rate d r ≡ ok e → d ≤ e
unfolding Decimal.try_mul_rate
mul_rate_ge d r e h k = grind arith

add_one_ge : (r s : Rate) → Rate.try_add Rate.one r ≡ ok s → Rate.one ≤ s
unfolding Rate.try_add
add_one_ge r s h = ground arith

try_add_eq : (a b c : Decimal) → Decimal.try_add a b ≡ ok c → c ≡ a + b
unfolding Decimal.try_add
try_add_eq a b c h = ground arith

-- At an owner's fee of at most 100%, compounding that succeeds lowers neither the cumulative rate
-- nor the owner's claim, and leaves the tokens at hand alone; the debt grows by no less than that
-- claim, so the lenders' share does not shrink.
pub compound_interest_grows :
    (l l' : ReserveLiquidity) (rate : Rate) (slots fee : ℕ)
    → fee ≤ wad
    → Liquidity.compound_interest l rate slots fee ≡ ok l'
    → (l'.available_amount ≡ l.available_amount)
      × (l.cumulative_borrow_rate_wads ≤ l'.cumulative_borrow_rate_wads)
      × (l.owner_unclaimed ≤ l'.owner_unclaimed)
      × (l.borrowed_amount_wads + l'.owner_unclaimed ≤ l'.borrowed_amount_wads + l.owner_unclaimed)
unfolding Liquidity.compound_interest
compound_interest_grows l l' rate slots fee hf h =
    grind (arith, interest_split, mul_rate_ge, add_one_ge, try_add_eq, try_pow_ge_one)

-- The owner's claim is covered by the tokens at hand.
abbrev pub IsCovered : ReserveLiquidity → Type 0
IsCovered l = l.owner_unclaimed ≤ l.available_amount * wad

-- Where the tokens at hand cover the owner's claim, a withdrawal that succeeds takes exactly its
-- amount, and they still cover it.
pub withdraw-IsCovered :
    (l l' : ReserveLiquidity) (amount : ℕ)
    → IsCovered l
    → Liquidity.withdraw l amount ≡ ok l'
    → IsCovered l' × (l'.available_amount + amount ≡ l.available_amount)
unfolding Liquidity.withdraw
withdraw-IsCovered l l' amount h e = ground arith

-- Where the tokens at hand cover the owner's claim, a loan that succeeds adds exactly its amount to
-- the debt, and they still cover the claim.
pub borrow-IsCovered :
    (l l' : ReserveLiquidity) (d : Decimal)
    → IsCovered l
    → Liquidity.borrow l d ≡ ok l'
    → IsCovered l' × (l'.borrowed_amount_wads ≡ l.borrowed_amount_wads + d)
unfolding Liquidity.borrow
borrow-IsCovered l l' d h e = ground arith

-- A loan of whole tokens that succeeds, in 64 bits and from a reserve whose tokens fit 64 bits, and
-- is repaid in full leaves the reserve as it was.
pub repay-borrow :
    (l l' : ReserveLiquidity) (n : ℕ)
    → Fits 64 l.available_amount
    → Fits 64 n
    → Liquidity.borrow l (Decimal.from_u64 n) ≡ ok l'
    → Liquidity.repay l' n (Decimal.from_u64 n) ≡ ok l
unfolding Liquidity.borrow Liquidity.repay Decimal.from_u64
repay-borrow l l' n hl hn h = ground arith
