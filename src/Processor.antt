-- ===== src/Processor.antt =====
-- The instruction handlers (src/processor.rs). The runtime and the token program are parameters.
pub mod Runtime
pub mod Accounts
pub mod Oracle
pub mod Steps
pub mod Principal
pub mod Exchange
pub mod Deposit
pub mod Redeem
pub mod RefreshTicket
pub mod Guards
pub mod Vault
pub mod Tokens
pub mod Solvency
pub mod RefreshPool
pub mod InitTicket
pub mod InitPool
pub mod Dispatch
pub mod Entrypoint
pub mod InitPoolManager
