-- ===== src/Processor/Oracle/Attributes.antt =====
-- The attributes of a product as a list of keys and values, and the loop over their bytes
-- (`get_pyth_product_quote_currency` of src/processor.rs).
use mathlib.Core.WellFounded.{Acc}
use mathlib.Core.Logic.{dif_pos, dif_neg}
use native.Mathlib.Bridge.{le_prop}
use allwinprotocol.Base.{
  ℕ, zero, suc, ◌+◌, ◌-◌, ◌*◌, ◌≤◌, ◌<◌, ◌≡◌, refl, ap, ◌∙◌, true, some, List, [], ◌∷◌, ◌++◌, arith,
  ltb, ◌==◌, if◌then◌else◌, length, take, drop, replicate, equal, get_elem?, Bool-cases, inl, inr,
  length-append, take-append, take-append_length, dec_lt,
}
use allwinprotocol.Error.{Result, ok, fail, invalid_oracle_config}
use allwinprotocol.State.Codec.{from_le_bytes}
use allwinprotocol.Processor.Runtime.{Product}
use allwinprotocol.Processor.Oracle.{
  Further, quote_currency_key, found, skips, read_attribute, read_value, skip_attribute,
  attribute_loop, further_wf, prod_attr_size, get_pyth_product_quote_currency, skip-Further,
}

-- Each key and each value stands behind its length.
abbrev pub encode_attributes : List (List ℕ × List ℕ) → List ℕ
encode_attributes [] = []
encode_attributes ((key, value) ∷ attributes) =
    length key ∷ (key ++ (length value ∷ (value ++ encode_attributes attributes)))

-- The value of the first quote currency, of at most 32 bytes
abbrev pub currency_of : List (List ℕ × List ℕ) → Result ℕ
currency_of [] = fail invalid_oracle_config
currency_of ((key, value) ∷ attributes) =
    if equal key quote_currency_key
    then (if ltb 32 (length value) then fail invalid_oracle_config else ok (from_le_bytes value))
    else currency_of attributes

equal-length : (xs ys : List ℕ) → equal xs ys ≡ true → length xs ≡ length ys
equal-length [] [] h = refl
equal-length [] (y ∷ ys) h = cc
equal-length (x ∷ xs) [] h = cc
equal-length (x ∷ xs) (y ∷ ys) h = ground (arith, equal-length xs ys)

get_elem?-drop {ℓ} :
    {A : Type ℓ} (xs : List A) (n : ℕ) {y : A} {ys : List A}
    → drop n xs ≡ y ∷ ys
    → get_elem? xs n ≡ some y
get_elem?-drop [] zero h = cc
get_elem?-drop [] (suc n) h = cc
get_elem?-drop (x ∷ xs) zero h = cc
get_elem?-drop (x ∷ xs) (suc n) h = get_elem?-drop xs n h

drop-cons {ℓ} :
    {A : Type ℓ} (xs : List A) (n : ℕ) {y : A} {ys : List A}
    → drop n xs ≡ y ∷ ys
    → drop (n + 1) xs ≡ ys
drop-cons [] zero h = cc
drop-cons [] (suc n) h = cc
drop-cons (x ∷ xs) zero h = cc
drop-cons (x ∷ xs) (suc n) {y} {ys} h =
    let e : ◌≡◌ {A = ℕ} (suc n + 1) (suc (n + 1)) = omega arith in rw e (drop-cons xs n h)

drop-append_after {ℓ} :
    {A : Type ℓ} (xs : List A) (n : ℕ) (ys : List A) {zs : List A}
    → drop n xs ≡ ys ++ zs
    → drop (n + length ys) xs ≡ zs
drop-append_after xs n [] h = let e : ◌≡◌ {A = ℕ} (n + 0) n = omega arith in rw e h
drop-append_after xs n (y ∷ ys) h =
    let e : ◌≡◌ {A = ℕ} (n + suc (length ys)) (n + 1 + length ys) = omega arith in
    rw e (drop-append_after xs (n + 1) ys (drop-cons xs n h))

from_le_bytes-zeros : (n : ℕ) → from_le_bytes (replicate n 0) ≡ 0
unfolding from_le_bytes
from_le_bytes-zeros zero = refl
from_le_bytes-zeros (suc n) = omega (arith, from_le_bytes-zeros n)

from_le_bytes-pad :
    (bytes : List ℕ) (n : ℕ) → from_le_bytes (bytes ++ replicate n 0) ≡ from_le_bytes bytes
unfolding from_le_bytes
from_le_bytes-pad [] n = from_le_bytes-zeros n
from_le_bytes-pad (b ∷ bs) n = ap (λ m. b + 256 * m) (from_le_bytes-pad bs n)

read_value_lem :
    (attr : List ℕ) (start : ℕ) (value rest : List ℕ)
    → get_elem? attr start ≡ some (length value)
    → drop (start + 1) attr ≡ value ++ rest
    → start + 1 + length value ≤ prod_attr_size
    → read_value attr start ≡ (
        if ltb 32 (length value)
        then fail invalid_oracle_config
        else ok (found (from_le_bytes value)))
unfolding read_value
read_value_lem attr start value rest value_length at_value fits =
    ground (arith, take-append value rest, from_le_bytes-pad value (32 - length value))

skip_attribute_lem :
    (attr : List ℕ) (start key_length n : ℕ)
    → get_elem? attr (start + key_length) ≡ some n
    → skip_attribute attr start key_length ≡ ok (skips (key_length + n))
unfolding skip_attribute
skip_attribute_lem attr start key_length n h = ground arith

module _ (attr : List ℕ) (start : ℕ) (key value rest : List ℕ)
    (key_length : get_elem? attr start ≡ some (length key))
    (at_key : drop (start + 1) attr ≡ key ++ (length value ∷ (value ++ rest)))
    (value_length : get_elem? attr (start + 1 + length key) ≡ some (length value))
    (at_value : drop (start + 1 + length key + 1) attr ≡ value ++ rest)
    (fits : start + 2 + (length key + length value) ≤ prod_attr_size) where
  read_attribute_lem : read_attribute attr start ≡ (
      if equal key quote_currency_key
      then (if ltb 32 (length value)
          then fail invalid_oracle_config
          else ok (found (from_le_bytes value)))
      else ok (skips (length key + length value)))
  unfolding read_attribute
  read_attribute_lem = elim (Bool-cases (length key == 14)) [
    | inl long ↦
        let fourteen : length key ≡ 14 = ground arith in
        let same_key : take 14 (drop (start + 1) attr) ≡ key =
          rw at_key (take-append_length 14 key (length value ∷ (value ++ rest)) fourteen) in
        let v =
          read_value_lem attr (start + 1 + length key) value rest value_length at_value
            (omega arith) in
        let s = skip_attribute_lem attr (start + 1) (length key) (length value) value_length in
        ground arith
    | inr short ↦
        let s = skip_attribute_lem attr (start + 1) (length key) (length value) value_length in
        ground (arith, equal-length key quote_currency_key)
  ]

module _ (attr : List ℕ) where
  attribute_loop_lem :
      (attributes : List (List ℕ × List ℕ)) (start : ℕ) (w : Acc Further start)
      → drop start attr ≡ encode_attributes attributes
      → start + length (encode_attributes attributes) ≡ prod_attr_size
      → attribute_loop attr start w ≡ currency_of attributes
  unfolding attribute_loop
  attribute_loop_lem [] start (Acc.intro _ further) at_start size =
      dif_neg (dec_lt start prod_attr_size) (omega arith) _ _
  attribute_loop_lem ((key, value) ∷ rest) start (Acc.intro _ further) at_start size =
      let more : start < prod_attr_size = omega arith in
      let at_key = drop-cons attr start at_start in
      let after_key = drop-append_after attr (start + 1) key at_key in
      let at_value = drop-cons attr (start + 1 + length key) after_key in
      let after_value = drop-append_after attr (start + 1 + length key + 1) value at_value in
      let rest_size : start + 2 + (length key + length value) + length (encode_attributes rest)
          ≡ prod_attr_size =
        omega (
          arith,
          length-append {0} key (length value ∷ (value ++ encode_attributes rest)),
          length-append {0} value (encode_attributes rest),
        ) in
      let r =
        read_attribute_lem attr start key value (encode_attributes rest)
          (get_elem?-drop attr start at_start) at_key
          (get_elem?-drop attr (start + 1 + length key) after_key) at_value (omega arith) in
      let next : start + 2 + (length key + length value)
          ≡ start + 1 + length key + 1 + length value =
        omega arith in
      let ih =
        attribute_loop_lem rest (start + 2 + (length key + length value))
          (further (start + 2 + (length key + length value))
            (skip-Further start (length key + length value) more))
          (rw next after_value) rest_size in
      dif_pos (dec_lt start prod_attr_size) le_prop more _ _
      ∙ (rw r (elim (Bool-cases (equal key quote_currency_key)) [
        | inl named ↦ rw named (elim (Bool-cases (ltb 32 (length value))) [
          | inl long ↦ rw long refl
          | inr short ↦ rw short refl
        ])
        | inr other ↦ rw other ih
      ]))

-- Where the 464 bytes of a product's attributes encode a list of keys and values, the loop over the
-- bytes returns what a search of the list does: the number of the value of the first key
-- "quote_currency", and InvalidOracleConfig if that value has more than 32 bytes or there is no such
-- key.
pub get_pyth_product_quote_currency-currency_of :
    (pyth_product : Product) (attributes : List (List ℕ × List ℕ))
    → pyth_product.attr ≡ encode_attributes attributes
    → length (encode_attributes attributes) ≡ prod_attr_size
    → get_pyth_product_quote_currency pyth_product ≡ currency_of attributes
unfolding get_pyth_product_quote_currency
get_pyth_product_quote_currency-currency_of pyth_product attributes encoded size =
    attribute_loop_lem pyth_product.attr attributes 0 (further_wf.apply 0) encoded (omega arith)
