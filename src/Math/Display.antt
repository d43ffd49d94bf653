-- ===== src/Math/Display.antt =====
-- The text of a fixed-point number: `Display` of `Decimal` and `Rate` (src/math/decimal.rs and
-- src/math/rate.rs). The digits of the scaled value come from the library of the wide integers.
use native.Mathlib.Nat.{pow-suc}
use allwinprotocol.Base.{
  ℕ, zero, suc, ◌+◌, ◌-◌, ◌*◌, ◌^◌, ◌≤◌, ◌≡◌, refl, ap, sym, ◌∙◌, List, [], ◌∷◌, ◌++◌, leb, true,
  false, length-take, if◌then◌else◌, length, take, drop, replicate, arith, length-append,
  length-replicate, length-drop, Bool-cases, inl, inr, All,
}
use allwinprotocol.Math.Common.{scale, wad}
use allwinprotocol.Math.Rate.{Rate}
use allwinprotocol.Math.Decimal.{Decimal}

-- `String::insert_str`; `insert` is the case of one character.
unfoldable pub insert_str : List ℕ → ℕ → List ℕ → List ℕ
insert_str text idx string = take idx text ++ (string ++ drop idx text)

unfoldable pub insert_point : List ℕ → List ℕ
unfolding insert_str
insert_point scaled_val =
    if leb (length scaled_val) scale
    then insert_str (insert_str scaled_val 0 (replicate (scale - length scaled_val) b'0')) 0
        (b'0' ∷ b'.' ∷ [])
    else insert_str scaled_val (length scaled_val - scale) (b'.' ∷ [])

-- `fmt` of a decimal and of a rate, where `to_string` writes a wide integer
unfoldable pub fmt_decimal : (ℕ → List ℕ) → Decimal → List ℕ
unfolding insert_point
fmt_decimal to_string d = insert_point (to_string d)

unfoldable pub fmt_rate : (ℕ → List ℕ) → Rate → List ℕ
unfolding insert_point
fmt_rate to_string r = insert_point (to_string r)

-- The number that digits stand for, and the same behind digits that stand for `n`
abbrev pub numeral : ℕ → List ℕ → ℕ
numeral n [] = n
numeral n (c ∷ cs) = numeral (n * 10 + (c - b'0')) cs

abbrev pub IsDigit : ℕ → Type 0
IsDigit c = (b'0' ≤ c) × (c ≤ b'9')

-- What the library writes for a number: its digits
pub record IsNumeral (n : ℕ) (text : List ℕ) : Type 0 where
  pub digits : All IsDigit text
  pub value : numeral 0 text ≡ n

-- The text of a number of units of 10^-18: digits of the whole part, one at least, a point, and 18
-- digits, which together stand for the number.
pub record IsTextOf (n : ℕ) (text : List ℕ) : Type 0 where
  pub whole : List ℕ
  pub fraction : List ℕ
  pub split : text ≡ whole ++ b'.' ∷ fraction
  pub whole_digits : All IsDigit whole
  pub some_digit : 1 ≤ length whole
  pub fraction_digits : All IsDigit fraction
  pub places : length fraction ≡ scale
  pub value : numeral 0 whole * wad + numeral 0 fraction ≡ n

numeral-append : (n : ℕ) (xs ys : List ℕ) → numeral n (xs ++ ys) ≡ numeral (numeral n xs) ys
numeral-append n [] ys = refl
numeral-append n (x ∷ xs) ys = numeral-append (n * 10 + (x - b'0')) xs ys

shifted : (n d k rest : ℕ) → (n * 10 + d) * k + rest ≡ n * (k * 10) + ((0 * 10 + d) * k + rest)
shifted n d k rest = grind arith

numeral-shift : (n : ℕ) (xs : List ℕ) → numeral n xs ≡ n * 10 ^ length xs + numeral 0 xs
numeral-shift n [] = omega arith
numeral-shift n (x ∷ xs) =
    let d = x - b'0' in
    let behind : (n * 10 + d) * 10 ^ length xs + numeral 0 xs
        ≡ n * 10 ^ suc (length xs) + ((0 * 10 + d) * 10 ^ length xs + numeral 0 xs) =
      rw (pow-suc 10 (length xs)) (shifted n d (10 ^ length xs) (numeral 0 xs)) in
    numeral-shift (n * 10 + d) xs
    ∙ behind
    ∙ ap (λ z. n * 10 ^ suc (length xs) + z) (sym (numeral-shift (0 * 10 + d) xs))

numeral-zeros : (n : ℕ) (xs : List ℕ) → numeral 0 (replicate n b'0' ++ xs) ≡ numeral 0 xs
numeral-zeros zero xs = refl
numeral-zeros (suc n) xs = numeral-zeros n xs

take-drop : (n : ℕ) (xs : List ℕ) → take n xs ++ drop n xs ≡ xs
take-drop zero xs = refl
take-drop (suc n) [] = refl
take-drop (suc n) (x ∷ xs) = ap (λ l. x ∷ l) (take-drop n xs)

zeros-digits : (n : ℕ) (xs : List ℕ) → All IsDigit xs → All IsDigit (replicate n b'0' ++ xs)
zeros-digits zero xs h = h
zeros-digits (suc n) xs h = ((omega arith, omega arith), zeros-digits n xs h)

take-digits : (n : ℕ) (xs : List ℕ) → All IsDigit xs → All IsDigit (take n xs)
take-digits zero xs h = _
take-digits (suc n) [] h = h
take-digits (suc n) (x ∷ xs) h = (h.0, take-digits n xs h.1)

drop-digits : (n : ℕ) (xs : List ℕ) → All IsDigit xs → All IsDigit (drop n xs)
drop-digits zero xs h = h
drop-digits (suc n) [] h = h
drop-digits (suc n) (x ∷ xs) h = drop-digits n xs h.1

leb→le : (a b : ℕ) → leb a b ≡ true → a ≤ b
leb→le a b h = ground arith

leb→lt : (a b : ℕ) → leb a b ≡ false → b + 1 ≤ a
leb→lt a b h = ground arith

zero_plus : (n : ℕ) → 0 + n ≡ n
zero_plus n = omega arith

length-zeros : (n : ℕ) (xs : List ℕ) → length (replicate n b'0' ++ xs) ≡ n + length xs
length-zeros n xs =
    omega (arith, length-append {0} (replicate n b'0') xs, length-replicate {0} {A = ℕ} n b'0')

-- `Display` of a decimal writes it in full: where the library writes a number as digits that stand
-- for it, the text is a whole part of one digit at least, a point, and 18 digits, each from 0 to 9,
-- and together they stand for the scaled value.
pub fmt_decimal-IsTextOf :
    (to_string : ℕ → List ℕ) (d : Decimal)
    → ((n : ℕ) → IsNumeral n (to_string n))
    → IsTextOf d (fmt_decimal to_string d)
unfolding fmt_decimal insert_point insert_str
fmt_decimal-IsTextOf to_string d writes =
    let text = to_string d in
    let written = writes d in
    elim (Bool-cases (leb (length text) scale)) [
      | inl short ↦ record {
        whole = b'0' ∷ [];
        fraction = replicate (scale - length text) b'0' ++ text;
        split = rw short refl;
        whole_digits = ((omega arith, omega arith), _);
        fraction_digits = zeros-digits (scale - length text) text written.digits;
        some_digit = omega arith;
        places =
            omega
              (arith, length-zeros (scale - length text) text, leb→le (length text) scale short);
        value =
            ap (λ z. 0 + z) (numeral-zeros (scale - length text) text ∙ written.value)
            ∙ zero_plus d;
      }
      | inr long ↦
          let k = length text - scale in
          let more = leb→lt (length text) scale long in
          let places : length (drop k text) ≡ scale = omega (arith, more, length-drop {0} k text) in
          record {
            whole = take k text;
            fraction = drop k text;
            split = rw long refl;
            whole_digits = take-digits k text written.digits;
            fraction_digits = drop-digits k text written.digits;
            some_digit = omega (arith, more, length-take {0} k text);
            places = places;
            value =
                rw places at (sym (numeral-shift (numeral 0 (take k text)) (drop k text)))
                ∙ sym (numeral-append 0 (take k text) (drop k text))
                ∙ ap (numeral 0) (take-drop k text)
                ∙ written.value;
          }
    ]
