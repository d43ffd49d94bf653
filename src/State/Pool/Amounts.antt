-- ===== src/State/Pool/Amounts.antt =====
-- The amounts of a loan, a repayment and a liquidation, and the two ways to take a fee, as
-- src/state/pool.rs declares them. No operation of the program computes with them.
use allwinprotocol.Base.{ℕ}
use allwinprotocol.Math.Decimal.{Decimal}

pub record CalculateBorrowResult : Type 0 where
  pub borrow_amount : Decimal
  pub receive_amount : ℕ
  pub borrow_fee : ℕ
  pub host_fee : ℕ

pub record CalculateRepayResult : Type 0 where
  pub settle_amount : Decimal
  pub repay_amount : ℕ

pub record CalculateLiquidationResult : Type 0 where
  pub settle_amount : Decimal
  pub repay_amount : ℕ
  pub withdraw_amount : ℕ

pub data FeeCalculation : Type 0 where
  exclusive inclusive : FeeCalculation
