-- ===== src/Processor/Oracle.antt =====
-- The prices and the quote currencies of the oracle (`get_pyth_price` and
-- `get_pyth_product_quote_currency` of src/processor.rs).
pub mod MarketPrice
pub mod Attributes
use mathlib.Core.WellFounded.{Acc, WellFounded}
use allwinprotocol.Base.{
  ℕ, zero, suc, ◌+◌, ◌-◌, ◌<◌, Bool, true, false, ◌||◌, none, some, List, [], ◌∷◌, ◌++◌, arith, ltb,
  ◌==◌, if◌then◌else◌, length, take, drop, replicate, equal, try_from, checked_pow, dec_lt, dite,
}
use allwinprotocol.Base.Integers.{ℤ, pos, negsuc}
use allwinprotocol.Error.{
  Result, ok, err, panic, fail, ok_or, index, math_overflow, invalid_oracle_config,
  invalid_account_data, ◌>>=◌,
}
use allwinprotocol.Math.Decimal
use allwinprotocol.Math.Decimal.{Decimal}
use allwinprotocol.State.Common.{Pubkey}
use allwinprotocol.State.Codec.{from_le_bytes}
use allwinprotocol.Processor.Runtime.{
  Account, Ledger, Runtime, Price, PriceType, price_type, unknown_type, Product,
}

-- `agg.price.try_into()`: a u64 of an i64
unfoldable pub to_price : ℤ → Result ℕ
to_price (pos n) = ok_or (try_from 64 n) invalid_oracle_config
to_price (negsuc n) = fail invalid_oracle_config

-- The price at its exponent, which is an i32: the least of these has no absolute value.
unfoldable pub scale_price : ℕ → ℤ → Result Decimal
unfolding Decimal.from_u64 Decimal.try_mul_u64 Decimal.try_div_u64
scale_price price (pos exponent) = do
  zeros ← ok_or (checked_pow 64 10 exponent) math_overflow
  Decimal.try_mul_u64 (Decimal.from_u64 price) zeros
scale_price price (negsuc n) = do
  exponent ← ok_or (try_from 31 (n + 1)) math_overflow
  decimals ← ok_or (checked_pow 64 10 exponent) math_overflow
  Decimal.try_div_u64 (Decimal.from_u64 price) decimals

unfoldable pub market_price_of : Price → Result Decimal
unfolding to_price scale_price
market_price_of pyth_price = elim (pyth_price.ptype) [
  | unknown_type ↦ fail invalid_oracle_config
  | price_type ↦ to_price pyth_price.price >>= λ price. scale_price price pyth_price.expo
]

-- `pyth::load(..).map_err(|_| ProgramError::InvalidAccountData)`
abbrev pub or_invalid_data {ℓ} : {A : Type ℓ} → Result A → Result A
or_invalid_data (ok a) = ok a
or_invalid_data (err _) = err invalid_account_data
or_invalid_data panic = panic

-- The clock that the source passes is not read.
unfoldable pub get_pyth_price : Runtime → Pubkey → Ledger → Result Decimal
unfolding market_price_of
get_pyth_price rt pyth_price_key ledger =
    or_invalid_data (rt.load_price (ledger pyth_price_key).bytes) >>= market_price_of

abbrev pub prod_attr_size : ℕ
prod_attr_size = 464

-- `KEY`: the letters of "quote_currency"
abbrev pub quote_currency_key : List ℕ
quote_currency_key =
    b'q' ∷ b'u' ∷ b'o' ∷ b't' ∷ b'e' ∷ b'_' ∷ b'c' ∷ b'u' ∷ b'r' ∷ b'r' ∷ b'e' ∷ b'n' ∷ b'c' ∷ b'y'
    ∷ []

-- One turn of the loop: it returns the value, or skips so many bytes beyond the two lengths.
pub data Turn : Type 0 where
  found : ℕ → Turn
  skips : ℕ → Turn

unfoldable pub skip_attribute : List ℕ → ℕ → ℕ → Result Turn
skip_attribute attr start key_length = do
  value_length ← index attr (start + key_length)
  ok (skips (key_length + value_length))

-- The number of the 32 bytes, of which the first are the value and the rest are zero
unfoldable pub read_value : List ℕ → ℕ → Result Turn
unfolding from_le_bytes
read_value attr start = do
  length ← index attr start
  if ltb 32 length || ltb prod_attr_size (start + 1 + length)
      then fail invalid_oracle_config
      else ok
          (found (from_le_bytes (take length (drop (start + 1) attr) ++ replicate (32 - length) 0)))

unfoldable pub read_attribute : List ℕ → ℕ → Result Turn
unfolding skip_attribute read_value
read_attribute attr start = do
  key_length ← index attr start
  if key_length == 14
      then (if ltb prod_attr_size (start + 1 + 14)
          then fail invalid_oracle_config
          else if equal (take 14 (drop (start + 1) attr)) quote_currency_key
          then read_value attr (start + 1 + 14)
          else skip_attribute attr (start + 1) key_length)
      else skip_attribute attr (start + 1) key_length

-- `t` is nearer to the end of the attributes than `s`.
abbrev pub Further : ℕ → ℕ → Type 0
Further t s = prod_attr_size - t < prod_attr_size - s

Further-below : (k n : ℕ) → prod_attr_size - n < k → Acc Further n
Further-below zero n h = elim h [ ]
Further-below (suc k) n h = Acc.intro n (λ m hm. Further-below k m (omega arith))

unfoldable pub further_wf : WellFounded Further
unfolding Further-below
further_wf = record { apply = λ n. Further-below (suc (prod_attr_size - n)) n (omega arith) }

pub skip-Further : (start n : ℕ) → start < prod_attr_size → Further (start + 2 + n) start
skip-Further start n h = omega arith

-- `while start < pyth::PROD_ATTR_SIZE`
unfoldable pub attribute_loop : List ℕ → (start : ℕ) → Acc Further start → Result ℕ
unfolding read_attribute
attribute_loop attr start (Acc.intro _ further) =
    dite (dec_lt start prod_attr_size)
      (λ more. read_attribute attr start >>= λ turn. elim turn [
        | found value ↦ ok value
        | skips n ↦
            attribute_loop attr (start + 2 + n)
              (further (start + 2 + n) (skip-Further start n more))
      ])
      (λ _. fail invalid_oracle_config)

unfoldable pub get_pyth_product_quote_currency : Product → Result ℕ
unfolding attribute_loop further_wf dec_lt
get_pyth_product_quote_currency pyth_product =
    attribute_loop pyth_product.attr 0 (further_wf.apply 0)
