-- ===== src/Error.antt =====
-- Error values (src/error.rs) and the `Result` of a call. A panic (an index out of bounds, an
-- `unwrap` or `expect` of nothing) ends the program and is a third outcome.
pub mod Messages
use allwinprotocol.Base.{ℕ, ◌≡◌, refl, Option, none, some, List, get_elem?}

pub data PoolingError : Type 0 where
  instruction_unpack_error config_instruction_unpack_error already_initialized not_rent_exempt :
      PoolingError
  invalid_market_authority invalid_account_owner invalid_token_owner invalid_token_account :
      PoolingError
  invalid_token_mint invalid_token_program invalid_amount invalid_config : PoolingError
  invalid_signer invalid_account_input math_overflow token_initialize_mint_failed : PoolingError
  token_initialize_account_failed token_transfer_failed token_mint_to_failed token_burn_failed :
      PoolingError
  insufficient_liquidity reserve_collateral_disabled reserve_stale withdraw_too_small : PoolingError
  withdraw_too_large borrow_too_small borrow_too_large repay_too_small : PoolingError
  liquidation_too_small obligation_healthy obligation_stale obligation_reserve_limit : PoolingError
  invalid_obligation_owner obligation_deposits_empty obligation_borrows_empty
        obligation_deposits_zero :
      PoolingError
  obligation_borrows_zero invalid_obligation_collateral invalid_obligation_liquidity
        obligation_collateral_empty :
      PoolingError
  obligation_liquidity_empty negative_interest_rate invalid_oracle_config
        invalid_flash_loan_receiver_program :
      PoolingError
  not_enough_liquidity_after_flash_loan market_config_err mining_reserve_empty
        invalid_mining_reserve :
      PoolingError
  mining_volume_limit mining_reserve_repeat mining_stale l_token_mismatch : PoolingError
  invalid_mininig_owner mining_mining_reserve_mismatch obligation_mining_reserve_mismatch
        invalid_market_owner :
      PoolingError
  deposit_amount_too_large redeem_amount_too_large withdraw_amount_too_large
        repay_amount_too_large :
      PoolingError
  deposit_paused borrow_paused liquidation_paused can_not_withdraw_all_deposit : PoolingError
  reentry_locked wrong_host_fee_receiver host_fee_receivers_full host_fee_receiver_not_fund :
      PoolingError

-- `e as u32`
abbrev pub to_u32 : PoolingError → ℕ
to_u32 instruction_unpack_error = 0
to_u32 config_instruction_unpack_error = 1
to_u32 already_initialized = 2
to_u32 not_rent_exempt = 3
to_u32 invalid_market_authority = 4
to_u32 invalid_account_owner = 5
to_u32 invalid_token_owner = 6
to_u32 invalid_token_account = 7
to_u32 invalid_token_mint = 8
to_u32 invalid_token_program = 9
to_u32 invalid_amount = 10
to_u32 invalid_config = 11
to_u32 invalid_signer = 12
to_u32 invalid_account_input = 13
to_u32 math_overflow = 14
to_u32 token_initialize_mint_failed = 15
to_u32 token_initialize_account_failed = 16
to_u32 token_transfer_failed = 17
to_u32 token_mint_to_failed = 18
to_u32 token_burn_failed = 19
to_u32 insufficient_liquidity = 20
to_u32 reserve_collateral_disabled = 21
to_u32 reserve_stale = 22
to_u32 withdraw_too_small = 23
to_u32 withdraw_too_large = 24
to_u32 borrow_too_small = 25
to_u32 borrow_too_large = 26
to_u32 repay_too_small = 27
to_u32 liquidation_too_small = 28
to_u32 obligation_healthy = 29
to_u32 obligation_stale = 30
to_u32 obligation_reserve_limit = 31
to_u32 invalid_obligation_owner = 32
to_u32 obligation_deposits_empty = 33
to_u32 obligation_borrows_empty = 34
to_u32 obligation_deposits_zero = 35
to_u32 obligation_borrows_zero = 36
to_u32 invalid_obligation_collateral = 37
to_u32 invalid_obligation_liquidity = 38
to_u32 obligation_collateral_empty = 39
to_u32 obligation_liquidity_empty = 40
to_u32 negative_interest_rate = 41
to_u32 invalid_oracle_config = 42
to_u32 invalid_flash_loan_receiver_program = 43
to_u32 not_enough_liquidity_after_flash_loan = 44
to_u32 market_config_err = 45
to_u32 mining_reserve_empty = 46
to_u32 invalid_mining_reserve = 47
to_u32 mining_volume_limit = 48
to_u32 mining_reserve_repeat = 49
to_u32 mining_stale = 50
to_u32 l_token_mismatch = 51
to_u32 invalid_mininig_owner = 52
to_u32 mining_mining_reserve_mismatch = 53
to_u32 obligation_mining_reserve_mismatch = 54
to_u32 invalid_market_owner = 55
to_u32 deposit_amount_too_large = 56
to_u32 redeem_amount_too_large = 57
to_u32 withdraw_amount_too_large = 58
to_u32 repay_amount_too_large = 59
to_u32 deposit_paused = 60
to_u32 borrow_paused = 61
to_u32 liquidation_paused = 62
to_u32 can_not_withdraw_all_deposit = 63
to_u32 reentry_locked = 64
to_u32 wrong_host_fee_receiver = 65
to_u32 host_fee_receivers_full = 66
to_u32 host_fee_receiver_not_fund = 67

-- `solana_program`'s error type, as far as this program builds its values; `other` stands for what
-- that library's own calls return.
pub data ProgramError : Type 0 where
  custom : ℕ → ProgramError
  invalid_account_data : ProgramError
  other : ℕ → ProgramError

-- `From<PoolingError> for ProgramError`
abbrev pub into : PoolingError → ProgramError
into e = custom (to_u32 e)

pub data Result {ℓ} (A : Type ℓ) : Type ℓ where
  panic : Result A
  ok : A → Result A
  err : ProgramError → Result A

-- `Err(e.into())`
abbrev pub fail {ℓ} : {A : Type ℓ} → PoolingError → Result A
fail e = err (into e)

-- `o.ok_or(e)`
abbrev pub ok_or {ℓ} : {A : Type ℓ} → Option A → PoolingError → Result A
ok_or none e = fail e
ok_or (some x) e = ok x

-- `?` leaves with an error, and a panic ends the program.
infixl 5 ◌>>=◌
abbrev pub ◌>>=◌ {κ ℓ} : {T : Type κ} {U : Type ℓ} → Result T → (T → Result U) → Result U
panic >>= rest = panic
err e >>= rest = err e
ok value >>= rest = rest value

-- What a successful run went through.
pub >>=-eq-ok {κ ℓ} :
    {T : Type κ} {U : Type ℓ} (first : Result T) (rest : T → Result U) {u : U}
    → (first >>= rest) ≡ ok u
    → (value : T) × (first ≡ ok value) × (rest value ≡ ok u)
>>=-eq-ok panic rest h = cc
>>=-eq-ok (err e) rest h = cc
>>=-eq-ok (ok value) rest h = (value, refl, h)

-- `check()?; rest`
infixl 5 ◌>>◌
abbrev pub ◌>>◌ {κ} : {U : Type κ} → Result (Unit {0}) → Result U → Result U
check >> rest = check >>= λ passed. rest

-- `xs[i]`, which panics out of bounds.
abbrev pub index {ℓ} : {A : Type ℓ} → List A → ℕ → Result A
index xs i = elim (get_elem? xs i) [ none ↦ panic | some x ↦ ok x ]
