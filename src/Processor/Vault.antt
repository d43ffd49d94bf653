-- ===== src/Processor/Vault.antt =====
-- What the ledger holds, seen as a vault: for each key the tokens of the pool that stands there, if any
-- does, and the steps that stand for the instructions of src/processor.rs.
pub mod Storage
pub mod Stores
pub mod Calls
pub mod Steps
pub mod Exchanges
pub mod Refreshes
pub mod Opening
pub mod Program
pub mod Reachable
use allwinprotocol.Base.{
  ℕ, ◌+◌, ◌-◌, ◌≤◌, ◌≡◌, ◌≢◌, Bool, true, false, Option, none, some, ◌==◌, if◌then◌else◌, u64_max,
}
use allwinprotocol.Error.{Result, ok}
use allwinprotocol.State.Common.{Pubkey, program_version}
use allwinprotocol.State.Pool.{Pool, PoolConfig}
use allwinprotocol.State.Pool.Repack.{keys, cut_keys}
use allwinprotocol.Instruction.{
  PoolingInstruction, init_pooling_manager, set_pooling_manager_owner, init_pool, refresh_pool,
  deposit_pool_liquidity, redeem_pool_collateral, init_ticket, refresh_ticket, lottery_draw,
}
use allwinprotocol.State.Pool.Principal.{IsBacked}
use allwinprotocol.Processor.Runtime.{Ledger, AccountInfo, Runtime}
use allwinprotocol.Processor.Accounts.{unpack_pool}

-- The pool at a key: an account of the program that `Pool::unpack` reads.
unfoldable pub pool_at : Runtime → Pubkey → Ledger → Pubkey → Option Pool
unfolding unpack_pool
pool_at rt program_id ledger key =
    if (ledger key).owner == program_id
    then elim (unpack_pool rt ledger key) [ ok p ↦ some p | _ ↦ none ]
    else none

abbrev pub available : Option Pool → Option ℕ
available none = none
available (some p) = some p.liquidity.available_amount

-- The tokens of each pool
abbrev pub funds : Runtime → Pubkey → Ledger → Pubkey → Option ℕ
funds rt program_id ledger key = available (pool_at rt program_id ledger key)

-- A pool of the program's version has a share for each token, nothing of it is lent or claimed, and its
-- keys are of 32 bytes.
pub record IsSoundPool (p : Pool) : Type 0 where
  pub version : p.version ≡ program_version
  pub backed : IsBacked p
  pub keyed : cut_keys (keys p) ≡ keys p

abbrev pub IsSound : Runtime → Pubkey → Ledger → Type 0
IsSound rt program_id ledger =
    (key : Pubkey) (p : Pool) → pool_at rt program_id ledger key ≡ some p → IsSoundPool p

-- No pool goes, and each stays with its accounts.
abbrev pub KeepsPools : Runtime → Pubkey → Ledger → Ledger → Type 0
KeepsPools rt program_id ledger ledger' =
    (key : Pubkey) (p : Pool)
    → pool_at rt program_id ledger key ≡ some p
    → (q : Pool) × (pool_at rt program_id ledger' key ≡ some q) × (keys q ≡ keys p)

-- The instructions that move no tokens
abbrev pub is_quiet : PoolingInstruction → Bool
is_quiet (init_pool _ _ _ _) = false
is_quiet (deposit_pool_liquidity _) = false
is_quiet (redeem_pool_collateral _) = false
is_quiet _ = true

-- The amount of a deposit or redemption: what was asked for, or all that the user holds.
abbrev pub IsRequested : ℕ → ℕ → Type 0
IsRequested asked amount = asked ≢ u64_max → amount ≡ asked

-- The step of a vault for an instruction: nothing happens, a pool is opened with no tokens, or tokens
-- are paid into one pool or taken out of it, as many as it has at most. All other pools are left alone.
pub data VaultStep (i : PoolingInstruction) (v : Pubkey → Option ℕ)
    : (Pubkey → Option ℕ) → Type 0 where
  idle : {w : Pubkey → Option ℕ} → is_quiet i ≡ true → ((k : Pubkey) → w k ≡ v k) → VaultStep i v w
  opens :
      {w : Pubkey → Option ℕ} (config : PoolConfig) (speed kink : ℕ) (pyth : Bool) (key : Pubkey)
      → i ≡ init_pool config speed kink pyth
      → v key ≡ none
      → ((k : Pubkey) → w k ≡ (if k == key then some 0 else v k))
      → VaultStep i v w
  pays :
      {w : Pubkey → Option ℕ} (asked : ℕ) (key : Pubkey) (held amount : ℕ)
      → i ≡ deposit_pool_liquidity asked
      → IsRequested asked amount
      → v key ≡ some held
      → ((k : Pubkey) → w k ≡ (if k == key then some (held + amount) else v k))
      → VaultStep i v w
  takes :
      {w : Pubkey → Option ℕ} (asked : ℕ) (key : Pubkey) (held amount : ℕ)
      → i ≡ redeem_pool_collateral asked
      → IsRequested asked amount
      → v key ≡ some held
      → amount ≤ held
      → ((k : Pubkey) → w k ≡ (if k == key then some (held - amount) else v k))
      → VaultStep i v w
