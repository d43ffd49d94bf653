-- ===== src/Error/Messages.antt =====
-- The messages of the errors (src/error.rs), and what the program prints of one (src/processor.rs).
use Prim.Native.String.{String}
use allwinprotocol.Error
use allwinprotocol.Error.{PoolingError}

-- `Display`
abbrev pub message : PoolingError → String
message Error.instruction_unpack_error = "Failed to unpack instruction data"
message Error.config_instruction_unpack_error = "Failed to unpack config instruction data"
message Error.already_initialized = "Account is already initialized"
message Error.not_rent_exempt = "Lamport balance below rent-exempt threshold"
message Error.invalid_market_authority = "Market authority is invalid"
message Error.invalid_account_owner = "Input account owner is not the program address"
message Error.invalid_token_owner =
    "Input token account is not owned by the correct token program id"
message Error.invalid_token_account = "Input token account is not valid"
message Error.invalid_token_mint = "Input token mint account is not valid"
message Error.invalid_token_program = "Input token program account is not valid"
message Error.invalid_amount = "Input amount is invalid"
message Error.invalid_config = "Input config value is invalid"
message Error.invalid_signer = "Input account must be a signer"
message Error.invalid_account_input = "Invalid account input"
message Error.math_overflow = "Math operation overflow"
message Error.token_initialize_mint_failed = "Token initialize mint failed"
message Error.token_initialize_account_failed = "Token initialize account failed"
message Error.token_transfer_failed = "Token transfer failed"
message Error.token_mint_to_failed = "Token mint to failed"
message Error.token_burn_failed = "Token burn failed"
message Error.insufficient_liquidity = "Insufficient liquidity available"
message Error.reserve_collateral_disabled = "Input reserve has collateral disabled"
message Error.reserve_stale = "Reserve state needs to be refreshed"
message Error.withdraw_too_small = "Withdraw amount too small"
message Error.withdraw_too_large = "Withdraw amount too large"
message Error.borrow_too_small = "Borrow amount too small to receive liquidity after fees"
message Error.borrow_too_large = "Borrow amount too large for deposited collateral"
message Error.repay_too_small = "Repay amount too small to transfer liquidity"
message Error.liquidation_too_small = "Liquidation amount too small to receive collateral"
message Error.obligation_healthy = "Cannot liquidate healthy obligations"
message Error.obligation_stale = "Obligation state needs to be refreshed"
message Error.obligation_reserve_limit = "Obligation reserve limit exceeded"
message Error.invalid_obligation_owner = "Obligation owner is invalid"
message Error.obligation_deposits_empty = "Obligation deposits are empty"
message Error.obligation_borrows_empty = "Obligation borrows are empty"
message Error.obligation_deposits_zero = "Obligation deposits have zero value"
message Error.obligation_borrows_zero = "Obligation borrows have zero value"
message Error.invalid_obligation_collateral = "Invalid obligation collateral"
message Error.invalid_obligation_liquidity = "Invalid obligation liquidity"
message Error.obligation_collateral_empty = "Obligation collateral is empty"
message Error.obligation_liquidity_empty = "Obligation liquidity is empty"
message Error.negative_interest_rate = "Interest rate is negative"
message Error.invalid_oracle_config = "Input oracle config is invalid"
message Error.invalid_flash_loan_receiver_program =
    "Input flash loan receiver program account is not valid"
message Error.not_enough_liquidity_after_flash_loan = "Not enough liquidity after flash loan"
message Error.market_config_err = "Market config err"
message Error.mining_reserve_empty = "Mining reserve empty"
message Error.invalid_mining_reserve = "Invalid mining reserve reserve err"
message Error.mining_volume_limit = "Mining volume limit"
message Error.mining_reserve_repeat = "Mining reserve repeat"
message Error.mining_stale = "Mining state needs to be refreshed"
message Error.l_token_mismatch = "Provided account is not for this L-token"
message Error.invalid_mininig_owner = "Invalid mining owner"
message Error.mining_mining_reserve_mismatch = "Mining-mining Reserve mismatch"
message Error.obligation_mining_reserve_mismatch = "Obligation-mining Reserve mismatch"
message Error.invalid_market_owner = "Market owner is invalid"
message Error.deposit_amount_too_large = "Deposit amount too large for account balance"
message Error.redeem_amount_too_large = "Redeem amount too large for deposit balance"
message Error.withdraw_amount_too_large = "Withdraw amount too large for deposit balance"
message Error.repay_amount_too_large = "Repay amount too large for borrow amount"
message Error.deposit_paused = "Deposit is now paused"
message Error.borrow_paused = "Borrow is now paused"
message Error.liquidation_paused = "Liquidation is now paused"
message Error.can_not_withdraw_all_deposit = "Can not withdraw all deposit"
message Error.reentry_locked = "Can not reentry"
message Error.wrong_host_fee_receiver = "Wrong host fee receiver"
message Error.host_fee_receivers_full = "Host fee receivers full"
message Error.host_fee_receiver_not_fund = "Host fee receiver not fund"

-- `DecodeError::type_of`
abbrev pub type_of : String
type_of = "Lending Error"

-- `PrintProgramError::print`: the text that is logged
abbrev pub print : PoolingError → String
print e = message e
