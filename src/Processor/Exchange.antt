-- ===== src/Processor/Exchange.antt =====
-- What deposits and redemptions share (src/processor.rs): the accounts, and the facts that their checks
-- establish.
use allwinprotocol.Base.{ℕ, Bool, true, false, not, List, ◌≡◌, ◌==◌, refl, arith}
use allwinprotocol.Error.{Result, ok, PoolingError, ◌>>=◌, ◌>>◌}
use allwinprotocol.State.Common.{Pubkey, Slot}
use allwinprotocol.State.Pool.{Pool}
use allwinprotocol.State.PoolManager.{PoolManager}
use allwinprotocol.Processor.Runtime.{Ledger, AccountInfo, Runtime}
use allwinprotocol.Processor.Accounts.{
  reject_if, next_account_info, unpack_pool, unpack_pool_manager,
}

-- The keys of the accounts, in the order in which they are passed. The source holds liquidity in a
-- deposit and collateral in a redemption. Signatures are checked by the token program.
pub record ExchangeAccounts : Type 0 where
  pub source : Pubkey
  pub destination : Pubkey
  pub reserve : Pubkey
  pub collateral_mint : Pubkey
  pub liquidity_supply : Pubkey
  pub manager : Pubkey
  pub manager_authority : Pubkey
  pub user_authority : Pubkey
  pub clock : AccountInfo
  pub token_program : Pubkey

module _ (rt : Runtime) where
  unfoldable pub take_accounts : List AccountInfo → Ledger → Result (ExchangeAccounts × Slot)
  unfolding next_account_info
  take_accounts accounts ledger = do
    (source, accounts) ← next_account_info rt accounts
    (destination, accounts) ← next_account_info rt accounts
    (reserve, accounts) ← next_account_info rt accounts
    (collateral_mint, accounts) ← next_account_info rt accounts
    (liquidity_supply, accounts) ← next_account_info rt accounts
    (manager, accounts) ← next_account_info rt accounts
    (manager_authority, accounts) ← next_account_info rt accounts
    (user_authority, accounts) ← next_account_info rt accounts
    (clock, accounts) ← next_account_info rt accounts
    slot ← rt.clock_slot clock ledger
    (token_program, accounts) ← next_account_info rt accounts
    ok (
      record {
        source = source.key;
        destination = destination.key;
        reserve = reserve.key;
        collateral_mint = collateral_mint.key;
        liquidity_supply = liquidity_supply.key;
        manager = manager.key;
        manager_authority = manager_authority.key;
        user_authority = user_authority.key;
        clock = clock;
        token_program = token_program.key;
      },
      slot,
    )

-- A pool and its manager are read from accounts of the program, belong together and to the accounts
-- that are passed, were refreshed in this very slot and are not locked; the authority that is passed is
-- the one that the manager derives.
pub record IsAuthorised (rt : Runtime) (program_id : Pubkey) (a : ExchangeAccounts) (slot : Slot)
    (ledger : Ledger) (manager : PoolManager) (reserve : Pool) : Type 0 where
  pub manager_read : unpack_pool_manager rt ledger a.manager ≡ ok manager
  pub manager_owned : (ledger a.manager).owner ≡ program_id
  pub token_program : manager.token_program_id ≡ a.token_program
  pub reserve_read : unpack_pool rt ledger a.reserve ≡ ok reserve
  pub reserve_owned : (ledger a.reserve).owner ≡ program_id
  pub managed : reserve.pool_manager ≡ a.manager
  pub supply : reserve.liquidity.supply_pubkey ≡ a.liquidity_supply
  pub mint : reserve.collateral.mint_pubkey ≡ a.collateral_mint
  pub fresh : reserve.last_update ≡ record { slot = slot; stale = false }
  pub unlocked : reserve.reentry_lock ≡ false
  pub authority :
      rt.create_program_address a.manager manager.bump_seed program_id ≡ ok a.manager_authority

-- A check that is passed.
pub reject_if-eq-ok {ℓ} :
    {A : Type ℓ} (b : Bool) (e : PoolingError) (k : Result A) {x : A}
    → (reject_if b e >> k) ≡ ok x
    → (b ≡ false) × (k ≡ ok x)
reject_if-eq-ok true e k h = cc
reject_if-eq-ok false e k h = (refl, h)

-- A check that two keys are equal, passed
pub require-eq-ok {ℓ} :
    {A : Type ℓ} (a b : ℕ) (e : PoolingError) (k : Result A) {x : A}
    → (reject_if (not (a == b)) e >> k) ≡ ok x
    → (a ≡ b) × (k ≡ ok x)
require-eq-ok a b e k h = ground arith
