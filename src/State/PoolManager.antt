-- ===== src/State/PoolManager.antt =====
-- `PoolManager` (src/state/pool_manager.rs): who administers a set of pools, and which programs they
-- trust.
pub mod Pack
use allwinprotocol.Base.{ℕ, Bool, true, false, not, ◌==◌}
use allwinprotocol.State.Common.{Pubkey, default_key, program_version, uninitialized_version}

pub record PoolManager : Type 0 where
  pub version : ℕ
  pub bump_seed : ℕ
  pub pending_owner : Pubkey
  pub owner : Pubkey
  pub quote_currency : ℕ
  pub token_program_id : Pubkey
  pub oracle_program_id : Pubkey
  pub mine_mint : Pubkey
  pub mine_supply_account : Pubkey

-- `Default`
abbrev pub default : PoolManager
default = record {
  version = uninitialized_version;
  bump_seed = 0;
  pending_owner = default_key;
  owner = default_key;
  quote_currency = 0;
  token_program_id = default_key;
  oracle_program_id = default_key;
  mine_mint = default_key;
  mine_supply_account = default_key;
}

pub record InitPoolManagerParams : Type 0 where
  pub bump_seed : ℕ
  pub owner : Pubkey
  pub quote_currency : ℕ
  pub token_program_id : Pubkey
  pub oracle_program_id : Pubkey
  pub mine_mint : Pubkey
  pub mine_supply_account : Pubkey

-- The pending owner becomes `Pubkey::default()`.
unfoldable pub init : PoolManager → InitPoolManagerParams → PoolManager
init m params = record m {
  version = program_version;
  bump_seed = params.bump_seed;
  pending_owner = default_key;
  owner = params.owner;
  quote_currency = params.quote_currency;
  token_program_id = params.token_program_id;
  oracle_program_id = params.oracle_program_id;
  mine_mint = params.mine_mint;
  mine_supply_account = params.mine_supply_account;
}

unfoldable pub new : InitPoolManagerParams → PoolManager
unfolding init
new params = init default params

unfoldable pub is_initialized : PoolManager → Bool
is_initialized m = not (m.version == uninitialized_version)
