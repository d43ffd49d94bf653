-- ===== src/Tests/Display.antt =====
-- The text of a decimal: a writer of digits, and `Display` at concrete numbers.
use mathlib.Core.WellFounded.{Acc}
use mathlib.Core.Logic.{dif_pos, dif_neg, dite}
use native.Mathlib.Bridge.{le_prop}
use native.Mathlib.Decide.{dec_lt}
use allwinprotocol.Base.{
  ℕ, ◌+◌, ◌-◌, ◌*◌, ◌/◌, ◌%◌, ◌<◌, ◌≡◌, refl, ap, ◌∙◌, arith, List, [], ◌∷◌, ◌++◌, replicate, All,
}
use allwinprotocol.Base.WellFounded.{lt_wf}
use allwinprotocol.Math.Display.{
  fmt_decimal, fmt_rate, numeral, IsDigit, IsNumeral, IsTextOf, fmt_decimal-IsTextOf,
}

tenth-lt : (n : ℕ) → 9 < n → n / 10 < n
tenth-lt n h = omega arith

-- The digits of `n`, in front of the rest
unfoldable digits : (n : ℕ) → Acc ◌<◌ n → List ℕ → List ℕ
digits n (Acc.intro _ smaller) rest =
    dite (dec_lt 9 n)
      (λ more. digits (n / 10) (smaller (n / 10) (tenth-lt n more)) ((b'0' + n % 10) ∷ rest))
      (λ _. (b'0' + n) ∷ rest)

unfoldable decimal_digits : ℕ → List ℕ
unfolding digits lt_wf dec_lt
decimal_digits n = digits n (lt_wf.apply n) []

numeral-digits :
    (n : ℕ) (w : Acc ◌<◌ n) (rest : List ℕ) → numeral 0 (digits n w rest) ≡ numeral n rest
unfolding digits
numeral-digits n (Acc.intro _ smaller) rest = elim (dec_lt 9 n) [
  | yes more ↦ rw (dif_pos (dec_lt 9 n) le_prop more) (
      let d = b'0' + n % 10 in
      let same : n / 10 * 10 + (b'0' + n % 10 - b'0') ≡ n = omega arith in
      numeral-digits (n / 10) (smaller (n / 10) (tenth-lt n more)) (d ∷ rest)
      ∙ ap (λ m. numeral m rest) same)
  | no last ↦
      rw (dif_neg (dec_lt 9 n) last)
        (let same : 0 * 10 + (b'0' + n - b'0') ≡ n = omega arith in ap (λ m. numeral m rest) same)
]

digits-digits :
    (n : ℕ) (w : Acc ◌<◌ n) (rest : List ℕ) → All IsDigit rest → All IsDigit (digits n w rest)
unfolding digits
digits-digits n (Acc.intro _ smaller) rest h = elim (dec_lt 9 n) [
  | yes more ↦ rw (dif_pos (dec_lt 9 n) le_prop more) (
      digits-digits (n / 10) (smaller (n / 10) (tenth-lt n more)) ((b'0' + n % 10) ∷ rest)
        ((omega arith, omega arith), h))
  | no last ↦ rw (dif_neg (dec_lt 9 n) last) ((omega arith, omega arith), h)
]

decimal_digits-IsNumeral : (n : ℕ) → IsNumeral n (decimal_digits n)
unfolding decimal_digits
decimal_digits-IsNumeral n = record {
  digits = digits-digits n (lt_wf.apply n) [] _;
  value = numeral-digits n (lt_wf.apply n) [];
}

-- "3.250000000000000000" and "0.000000000000000042"
writes_whole :
    fmt_decimal decimal_digits 3_250_000_000_000_000_000
    ≡ b'3' ∷ b'.' ∷ b'2' ∷ b'5' ∷ replicate 16 b'0'
unfolding decimal_digits fmt_decimal
writes_whole = refl

writes_small : fmt_rate decimal_digits 42 ≡ (b'0' ∷ b'.' ∷ replicate 16 b'0') ++ b'4' ∷ b'2' ∷ []
unfolding decimal_digits fmt_rate
writes_small = refl

fmt_decimal-IsTextOf_example :
    IsTextOf 3_250_000_000_000_000_000 (fmt_decimal decimal_digits 3_250_000_000_000_000_000)
fmt_decimal-IsTextOf_example =
    fmt_decimal-IsTextOf decimal_digits 3_250_000_000_000_000_000 decimal_digits-IsNumeral
