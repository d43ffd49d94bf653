-- ===== src/State.antt =====
-- The account states (src/state).
pub mod Common
pub mod LastUpdate
pub mod Liquidity
pub mod Collateral
pub mod Pool
pub mod PoolManager
pub mod Positions
pub mod Codec
pub mod Ticket
pub mod Mining
