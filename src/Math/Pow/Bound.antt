-- ===== src/Math/Pow/Bound.antt =====
-- `Rate::try_pow` (src/math/rate.rs) and the exact power.
use mathlib.Core.WellFounded.{Acc}
use mathlib.Core.Logic.{dif_pos, dif_neg}
use native.Mathlib.Nat.{
  pow-zero, pow-suc, pow-le-pow_left, mul-le-mul, mul-le-mul_left, mul-le-mul_right,
}
use native.Mathlib.Bridge.{le_prop}
use allwinprotocol.Base.{
  ℕ, zero, suc, ◌+◌, ◌*◌, ◌/◌, ◌%◌, ◌≤◌, ◌<◌, ◌^◌, ◌≡◌, refl, arith, ◌==◌, ==→≡, if◌then◌else◌,
  dec_lt, Bool-cases, inl, inr,
}
use allwinprotocol.Base.WellFounded.{lt_wf, half-lt}
use allwinprotocol.Error.{ok, >>=-eq-ok}
use allwinprotocol.Math.Common.{wad}
use allwinprotocol.Math.Rate
use allwinprotocol.Math.Rate.{Rate}

pow-mul : (a b k : ℕ) → (a * b) ^ k ≡ a ^ k * b ^ k
pow-mul a b zero = rw (pow-zero (a * b), pow-zero a, pow-zero b) refl
pow-mul a b (suc k) = rw (pow-suc (a * b) k, pow-suc a k, pow-suc b k, pow-mul a b k) (omega arith)

pow_even : (a k : ℕ) → a ^ (2 * k) ≡ (a * a) ^ k
pow_even a zero = omega (arith, pow-zero (2 * 0), pow-zero a, pow-zero (a * a))
pow_even a (suc k) =
    let e : 2 * suc k ≡ suc (suc (2 * k)) = omega arith in
    rw (e, pow-suc a (suc (2 * k)), pow-suc a (2 * k), pow-suc (a * a) k, pow_even a k)
      (omega arith)

pow_odd : (a k : ℕ) → a ^ (2 * k + 1) ≡ (a * a) ^ k * a
pow_odd a k =
    let e : 2 * k + 1 ≡ suc (2 * k) = omega arith in rw (e, pow-suc a (2 * k), pow_even a k) refl

module _ (w b s ret r k : ℕ) (squared : s * w ≤ b) where
  pair_le : (s * s) ^ k * (w * w) ^ k ≤ (b * b) ^ k
  pair_le =
      let both : s * w * (s * w) ≤ b * b = mul-le-mul squared squared in
      let same : s * s * (w * w) ≡ s * w * (s * w) = omega arith in
      rw (← pow-mul (s * s) (w * w) k, same) (pow-le-pow_left both k)

  -- An even number of further factors
  even_le : r * (w * w) ^ k ≤ ret * (s * s) ^ k → r * (w * w) ^ (2 * k) ≤ ret * b ^ (2 * k)
  even_le h =
      let h1 = mul-le-mul_right ((w * w) ^ k) h in
      let h2 = mul-le-mul_left ret pair_le in
      rw (pow_even (w * w) k, pow_even b k, pow-mul (w * w) (w * w) k) (omega arith)

  odd_le :
      (ret' : ℕ)
      → ret' * w ≤ ret * s
      → r * (w * w) ^ k ≤ ret' * (s * s) ^ k
      → r * (w * w) ^ (2 * k + 1) ≤ ret * b ^ (2 * k + 1)
  odd_le ret' mul h =
      let h1 = mul-le-mul_right ((w * w) ^ k * (w * w)) h in
      let h2 = mul-le-mul_right ((s * s) ^ k * (w * w) ^ k * w) mul in
      let h3 = mul-le-mul_left (ret * ((s * s) ^ k * (w * w) ^ k)) squared in
      let h4 = mul-le-mul_left (ret * b) pair_le in
      rw (pow_odd (w * w) k, pow_odd b k, pow-mul (w * w) (w * w) k) (omega arith)

try_mul_le : (a b c : Rate) → Rate.try_mul a b ≡ ok c → c * wad ≤ a * b
unfolding Rate.try_mul
try_mul_le a b c h = ground arith

pow_loop_le :
    (exp : ℕ) (w : Acc ◌<◌ exp) (base ret r : Rate)
    → Rate.pow_loop exp w base ret ≡ ok r
    → r * (wad * wad) ^ (exp / 2) ≤ ret * (base * base) ^ (exp / 2)
unfolding Rate.pow_loop Rate.mul_if_odd
pow_loop_le exp (Acc.intro _ smaller) base ret r h = elim (dec_lt 0 exp) [
  | no done ↦
      let h0 = rw (dif_neg (dec_lt 0 exp) done) at h in
      let same : ret ≡ r = cc in
      let e : exp / 2 ≡ 0 = omega arith in
      rw (e, same, pow-zero (wad * wad), pow-zero (base * base)) (omega arith)
  | yes more ↦
      let h0 = rw (dif_pos (dec_lt 0 exp) le_prop more) at h in
      let (square, squares, h1) = >>=-eq-ok (Rate.try_mul base base) _ h0 in
      let (ret', mul, h2) = >>=-eq-ok (Rate.mul_if_odd (exp / 2) square ret) _ h1 in
      let ih = pow_loop_le (exp / 2) (smaller (exp / 2) (half-lt exp more)) square ret' r h2 in
      let squared = try_mul_le base base square squares in
      elim (Bool-cases (exp / 2 % 2 == 0)) [
        | inl even ↦
            let mul' = rw even at mul in
            let same : ret' ≡ ret = cc in
            let e : exp / 2 ≡ 2 * (exp / 2 / 2) = omega (arith, ==→≡ (exp / 2 % 2) 0 even) in
            let le : r * (wad * wad) ^ (2 * (exp / 2 / 2))
                ≤ ret * (base * base) ^ (2 * (exp / 2 / 2)) =
              even_le wad (base * base) square ret r (exp / 2 / 2) squared (rw same at ih) in
            rw (← e) at le
        | inr odd ↦
            let mul' = rw odd at mul in
            let e : exp / 2 ≡ 2 * (exp / 2 / 2) + 1 = ground arith in
            let le : r * (wad * wad) ^ (2 * (exp / 2 / 2) + 1)
                ≤ ret * (base * base) ^ (2 * (exp / 2 / 2) + 1) =
              odd_le wad (base * base) square ret r (exp / 2 / 2) squared ret'
                (try_mul_le ret square ret' mul') ih in
            rw (← e) at le
      ]
]

-- Where `try_pow` returns, its result is never more than the exact power: for scaled values `base`
-- and `r`, `r / 10^18` is at most `(base / 10^18) ^ exp`.
pub try_pow_le :
    (base : Rate) (exp : ℕ) (r : Rate)
    → Rate.try_pow base exp ≡ ok r
    → r * wad ^ exp ≤ base ^ exp * wad
unfolding Rate.try_pow
try_pow_le base exp r h =
    let le = pow_loop_le exp (lt_wf.apply exp) base (if exp % 2 == 0 then wad else base) r h in
    elim (Bool-cases (exp % 2 == 0)) [
      | inl even ↦
          let le' = rw (even, ← pow_even wad (exp / 2), ← pow_even base (exp / 2)) at le in
          let e : exp ≡ 2 * (exp / 2) = omega (arith, ==→≡ (exp % 2) 0 even) in
          let bound : r * wad ^ (2 * (exp / 2)) ≤ base ^ (2 * (exp / 2)) * wad = omega arith in
          rw (← e) at bound
      | inr odd ↦
          let le' = rw (odd, ← pow_even wad (exp / 2), ← pow_even base (exp / 2)) at le in
          let e : exp ≡ suc (2 * (exp / 2)) = ground arith in
          let more = mul-le-mul_right wad le' in
          let bound : r * wad ^ suc (2 * (exp / 2)) ≤ base ^ suc (2 * (exp / 2)) * wad =
            rw (pow-suc wad (2 * (exp / 2)), pow-suc base (2 * (exp / 2))) (omega arith) in
          rw (← e) at bound
    ]
