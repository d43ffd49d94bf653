-- ===== src/Processor/InitPoolManager.antt =====
-- `process_init_pool_manager` (src/processor.rs), and `process_set_pool_manager_owner` and
-- `process_lottery_draw`, which do nothing.
use allwinprotocol.Base.{ℕ, Bool, not, List, ◌==◌}
use allwinprotocol.Error.{
  Result, ok, invalid_account_owner, invalid_account_input, invalid_signer, ◌>>=◌, ◌>>◌,
}
use allwinprotocol.State.Common.{Pubkey}
use allwinprotocol.State.PoolManager
use allwinprotocol.State.PoolManager.{PoolManager, InitPoolManagerParams}
use allwinprotocol.State.PoolManager.Pack as PoolManagerPack
use allwinprotocol.Processor.Runtime.{Ledger, AccountInfo, Runtime}
use allwinprotocol.Processor.Accounts.{reject_if, next_account_info, write_bytes}
use allwinprotocol.Processor.Guards.{assert_rent_exempt, assert_uninitialized}

-- The key that is written "7NzERexiPdyiNp5whD74AwTDpALp5VgPta6hmdcGuNm9" in base 58
abbrev pub init_authority : Pubkey
init_authority = 103346158155990785858066893624180898281124748962055300422291156074513767581790

unfoldable pub process_set_pool_manager_owner :
    Pubkey → Pubkey → List AccountInfo → Ledger → Result Ledger
process_set_pool_manager_owner program_id new_owner accounts ledger = ok ledger

unfoldable pub process_lottery_draw : Pubkey → List AccountInfo → Ledger → Result Ledger
process_lottery_draw program_id accounts ledger = ok ledger

module _ (rt : Runtime) where
  unfoldable pub pack_pool_manager : PoolManager → Pubkey → Ledger → Result Ledger
  unfolding write_bytes
  pack_pool_manager manager key ledger = do
    bytes ←
        rt.pack PoolManagerPack.pool_manager_len (PoolManagerPack.pack_into_slice manager)
          (ledger key).bytes
    ok (write_bytes ledger key bytes)

  -- The pool manager that the account holds, once the accounts have been checked
  unfoldable pub check_pool_manager :
      Pubkey → (ℕ → ℕ → Bool) → (authority manager : AccountInfo) → Ledger → Result PoolManager
  unfolding assert_rent_exempt assert_uninitialized
  check_pool_manager program_id is_exempt authority manager_info ledger = do
    reject_if (not (authority.key == init_authority)) invalid_account_input
    reject_if (not authority.is_signer) invalid_signer
    assert_rent_exempt is_exempt (ledger manager_info.key)
    manager ←
        assert_uninitialized rt PoolManagerPack.pool_manager_len PoolManagerPack.unpack_from_slice
          PoolManager.is_initialized (ledger manager_info.key).bytes
    reject_if (not ((ledger manager_info.key).owner == program_id)) invalid_account_owner
    ok manager

  unfoldable pub process_init_pool_manager :
      Pubkey → (owner : Pubkey) (quote_currency : ℕ) → List AccountInfo → Ledger → Result Ledger
  unfolding next_account_info check_pool_manager PoolManager.init pack_pool_manager
  process_init_pool_manager program_id owner quote_currency accounts ledger = do
    (authority, accounts) ← next_account_info rt accounts
    (manager_info, accounts) ← next_account_info rt accounts
    (rent, accounts) ← next_account_info rt accounts
    is_exempt ← rt.rent_is_exempt rent ledger
    (token_program, accounts) ← next_account_info rt accounts
    (oracle_program, accounts) ← next_account_info rt accounts
    (mine, accounts) ← next_account_info rt accounts
    (mine_supply, _) ← next_account_info rt accounts
    manager ← check_pool_manager program_id is_exempt authority manager_info ledger
    pack_pool_manager
        (PoolManager.init manager (record {
          bump_seed = rt.find_bump_seed manager_info.key program_id;
          owner = owner;
          quote_currency = quote_currency;
          token_program_id = token_program.key;
          oracle_program_id = oracle_program.key;
          mine_mint = mine.key;
          mine_supply_account = mine_supply.key;
        }))
        manager_info.key ledger
