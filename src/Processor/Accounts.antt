-- ===== src/Processor/Accounts.antt =====
-- Reading and writing accounts, and the calls of the token program (src/processor.rs).
use allwinprotocol.Base.{
  ℕ, Bool, true, false, Option, none, some, List, [], ◌∷◌, ◌==◌, if◌then◌else◌,
}
use allwinprotocol.Error.{
  Result, ok, err, panic, fail, PoolingError, token_transfer_failed, token_mint_to_failed,
  token_burn_failed, ◌>>=◌,
}
use allwinprotocol.State.Common.{Pubkey}
use allwinprotocol.State.Pool
use allwinprotocol.State.Pool.{Pool}
use allwinprotocol.State.Pool.Pack as PoolPack
use allwinprotocol.State.PoolManager
use allwinprotocol.State.PoolManager.{PoolManager}
use allwinprotocol.State.PoolManager.Pack as PoolManagerPack
use allwinprotocol.Processor.Runtime.{
  Ledger, AccountInfo, TokenInstruction, transfer, mint_to, burn, Runtime,
}

-- `if condition { return Err(e.into()) }`
abbrev pub reject_if : Bool → PoolingError → Result (Unit {0})
reject_if true e = fail e
reject_if false e = ok tt

-- The bytes of an account, replaced.
unfoldable pub write_bytes : Ledger → Pubkey → List ℕ → Ledger
write_bytes ledger key bytes k = if k == key then record (ledger k) { bytes = bytes } else ledger k

-- `result.map_err(|_| e.into())`
abbrev pub map_err {ℓ} : {A : Type ℓ} → Result A → PoolingError → Result A
map_err (ok a) e = ok a
map_err (err _) e = fail e
map_err panic e = panic

module _ (rt : Runtime) where
  unfoldable pub next_account_info : List AccountInfo → Result (AccountInfo × List AccountInfo)
  next_account_info [] = err rt.not_enough_account_keys
  next_account_info (info ∷ rest) = ok (info, rest)

  -- `Pool::unpack(&info.data.borrow())`
  unfoldable pub unpack_pool : Ledger → Pubkey → Result Pool
  unpack_pool ledger key =
      rt.unpack PoolPack.reserve_len PoolPack.unpack_from_slice Pool.is_initialized
        (ledger key).bytes

  unfoldable pub unpack_pool_manager : Ledger → Pubkey → Result PoolManager
  unpack_pool_manager ledger key =
      rt.unpack PoolManagerPack.pool_manager_len PoolManagerPack.unpack_from_slice
        PoolManager.is_initialized (ledger key).bytes

  -- `Pool::pack(pool, &mut info.data.borrow_mut())`
  unfoldable pub pack_pool : Pool → Pubkey → Ledger → Result Ledger
  pack_pool pool key ledger = do
    bytes ← rt.pack PoolPack.reserve_len (PoolPack.pack_into_slice pool) (ledger key).bytes
    ok (write_bytes ledger key bytes)

  -- The seeds are those that the pool manager's authority is derived from; without them the call has
  -- the user's own signature.
  abbrev pub invoke_optionally_signed :
      TokenInstruction → Option (Pubkey × ℕ) → Ledger → Result Ledger
  invoke_optionally_signed instruction none ledger = rt.invoke instruction ledger
  invoke_optionally_signed instruction (some (manager, bump_seed)) ledger =
      rt.invoke_signed instruction manager bump_seed ledger

  abbrev pub spl_token_transfer :
      Pubkey → Pubkey → Pubkey → Pubkey → ℕ → Option (Pubkey × ℕ) → Ledger → Result Ledger
  spl_token_transfer token_program source destination authority amount authority_signer_seeds
        ledger =
      do
        call ← rt.instruction (transfer token_program source destination authority amount)
        map_err (invoke_optionally_signed call authority_signer_seeds ledger) token_transfer_failed

  abbrev pub spl_token_mint_to :
      Pubkey → Pubkey → Pubkey → Pubkey → ℕ → Option (Pubkey × ℕ) → Ledger → Result Ledger
  spl_token_mint_to token_program mint destination authority amount authority_signer_seeds ledger =
      do
        call ← rt.instruction (mint_to token_program mint destination authority amount)
        map_err (invoke_optionally_signed call authority_signer_seeds ledger) token_mint_to_failed

  abbrev pub spl_token_burn :
      Pubkey → Pubkey → Pubkey → Pubkey → ℕ → Option (Pubkey × ℕ) → Ledger → Result Ledger
  spl_token_burn token_program mint source authority amount authority_signer_seeds ledger = do
    call ← rt.instruction (burn token_program source mint authority amount)
    map_err (invoke_optionally_signed call authority_signer_seeds ledger) token_burn_failed

  -- The calls of the handlers: of a deposit and a redemption, from the user and from the pool
  unfoldable pub user_transfer : Pubkey → Pubkey → Pubkey → Pubkey → ℕ → Ledger → Result Ledger
  user_transfer token_program source destination authority amount ledger =
      spl_token_transfer token_program source destination authority amount none ledger

  unfoldable pub pool_transfer :
      Pubkey → Pubkey → Pubkey → Pubkey → ℕ → Pubkey → ℕ → Ledger → Result Ledger
  pool_transfer token_program source destination authority amount manager bump_seed ledger =
      spl_token_transfer token_program source destination authority amount
        (some (manager, bump_seed)) ledger

  unfoldable pub pool_mint_to :
      Pubkey → Pubkey → Pubkey → Pubkey → ℕ → Pubkey → ℕ → Ledger → Result Ledger
  pool_mint_to token_program mint destination authority amount manager bump_seed ledger =
      spl_token_mint_to token_program mint destination authority amount (some (manager, bump_seed))
        ledger

  unfoldable pub user_burn : Pubkey → Pubkey → Pubkey → Pubkey → ℕ → Ledger → Result Ledger
  user_burn token_program mint source authority amount ledger =
      spl_token_burn token_program mint source authority amount none ledger
