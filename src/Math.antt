-- ===== src/Math.antt =====
-- Fixed-point numbers with 18 decimal places (src/math).
pub mod Common
pub mod Rate
pub mod Decimal
pub mod Rounding
pub mod Display
pub mod Pow
