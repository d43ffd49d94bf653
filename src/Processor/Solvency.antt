-- ===== src/Processor/Solvency.antt =====
-- The pools of the ledger and what stands behind them (src/processor.rs): each pool's supply account holds
-- the tokens that the pool counts, and there are no more shares of it than these.
pub mod Holdings
pub mod Shares
pub mod Places
pub mod Writes
pub mod Effects
pub mod Exchanges
pub mod Others
pub mod Program
use allwinprotocol.Base.{ℕ, ◌≤◌, ◌≡◌, ◌≢◌, none, some}
use allwinprotocol.State.Common.{Pubkey}
use allwinprotocol.State.Pool.{Pool}
use allwinprotocol.Processor.Runtime.{Ledger, TokenAccount, Mint, Runtime}
use allwinprotocol.Processor.Tokens.{token_at, mint_at, IsAuthority}
use allwinprotocol.Processor.Vault.{pool_at, IsSound}

-- A token account of a key that the program derives, with so many tokens at least
pub record Holds (rt : Runtime) (program_id : Pubkey) (ledger : Ledger) (key : Pubkey) (amount : ℕ)
    : Type 0 where
  pub account : TokenAccount
  pub there : token_at rt ledger key ≡ some account
  pub authority : IsAuthority rt program_id account.owner
  pub enough : amount ≤ account.amount

-- A mint of a key that the program derives, of which there are so many tokens at most
pub record Issued (rt : Runtime) (program_id : Pubkey) (ledger : Ledger) (key : Pubkey) (amount : ℕ)
    : Type 0 where
  pub mint : Mint
  pub there : mint_at rt ledger key ≡ some mint
  pub authority : IsAuthority rt program_id mint.mint_authority
  pub few : mint.supply ≤ amount

-- Where a pool's tokens are, and which mint its shares have
abbrev pub supply_of : Pool → Pubkey
supply_of p = p.liquidity.supply_pubkey

abbrev pub mint_of : Pool → Pubkey
mint_of p = p.collateral.mint_pubkey

-- No two pools have the same place, and at each place stands what suits the pool's tokens.
pub record IsKept (rt : Runtime) (program_id : Pubkey) (place : Pool → Pubkey)
    (Suits : Ledger → Pubkey → ℕ → Type 0) (ledger : Ledger) : Type 0 where
  pub separate :
      (k1 k2 : Pubkey) (p1 p2 : Pool)
      → pool_at rt program_id ledger k1 ≡ some p1
      → pool_at rt program_id ledger k2 ≡ some p2
      → place p1 ≡ place p2
      → k1 ≡ k2
  pub suits :
      (key : Pubkey) (p : Pool)
      → pool_at rt program_id ledger key ≡ some p
      → Suits ledger (place p) p.liquidity.available_amount

-- Pools are sound; each has its own supply account, which holds the tokens that the pool counts, and its
-- own mint, of which there are no more shares than these.
pub record IsSolvent (rt : Runtime) (program_id : Pubkey) (ledger : Ledger) : Type 0 where
  pub sound : IsSound rt program_id ledger
  pub tokens : IsKept rt program_id supply_of (Holds rt program_id) ledger
  pub shares : IsKept rt program_id mint_of (Issued rt program_id) ledger

-- A new pool has a place of its own, which suits no tokens.
abbrev pub IsPlaced :
    Runtime → Pubkey → (Pool → Pubkey) → (Ledger → Pubkey → ℕ → Type 0) → Ledger → Ledger → Type 0
IsPlaced rt program_id place Suits ledger ledger' =
    (key : Pubkey) (q : Pool)
    → pool_at rt program_id ledger key ≡ none
    → pool_at rt program_id ledger' key ≡ some q
    → Suits ledger' (place q) 0
      × ((k : Pubkey) (p : Pool) → pool_at rt program_id ledger k ≡ some p → place q ≢ place p)

-- What `process_init_pool` does not check of a new pool: that its supply account is a token account of a
-- key that the program derives, and its mint is one of such a key without tokens, and that no other
-- pool has them.
pub record IsWellOpened (rt : Runtime) (program_id : Pubkey) (ledger ledger' : Ledger)
    : Type 0 where
  pub supply : IsPlaced rt program_id supply_of (Holds rt program_id) ledger ledger'
  pub mint : IsPlaced rt program_id mint_of (Issued rt program_id) ledger ledger'
