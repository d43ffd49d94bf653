-- ===== src/Tests.antt =====
-- The theorems at concrete inputs.
pub mod Data
pub mod Numbers
pub mod Display
pub mod Pools
pub mod Tickets
pub mod Bytes
pub mod Runtime
pub mod RuntimeLaws
pub mod TokenLaws
pub mod MintLaws
pub mod Handlers
pub mod History
pub mod Openings
pub mod Vault
pub mod Solvency
pub mod Progress
pub mod RefreshTicket
