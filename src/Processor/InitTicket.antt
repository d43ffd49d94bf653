-- ===== src/Processor/InitTicket.antt =====
-- `process_init_ticket` (src/processor.rs): a new ticket, with no positions.
pub mod Opening
use allwinprotocol.Base.{ℕ, Bool, not, List, [], ◌==◌}
use allwinprotocol.Error.{
  Result, ok, invalid_account_owner, invalid_token_program, invalid_signer, ◌>>=◌, ◌>>◌,
}
use allwinprotocol.State.Common.{Pubkey}
use allwinprotocol.State.Ticket
use allwinprotocol.State.Ticket.{Ticket}
use allwinprotocol.State.Ticket.Pack as TicketPack
use allwinprotocol.Processor.Runtime.{Ledger, AccountInfo, Runtime}
use allwinprotocol.Processor.Accounts.{reject_if, next_account_info, unpack_pool_manager}
use allwinprotocol.Processor.Guards.{assert_rent_exempt, assert_uninitialized}
use allwinprotocol.Processor.RefreshTicket.{pack_ticket}

module _ (rt : Runtime) where
  -- The ticket that the account holds, once the accounts have been checked
  unfoldable pub check_ticket :
      Pubkey
      → (ℕ → ℕ → Bool)
      → (ticket manager owner token_program : AccountInfo) → Ledger
      → Result Ticket
  unfolding assert_rent_exempt assert_uninitialized unpack_pool_manager
  check_ticket program_id is_exempt ticket_info manager_info owner_info token_program ledger = do
    assert_rent_exempt is_exempt (ledger ticket_info.key)
    ticket ←
        assert_uninitialized rt TicketPack.obligation_len TicketPack.unpack_from_slice
          Ticket.is_initialized (ledger ticket_info.key).bytes
    reject_if (not ((ledger ticket_info.key).owner == program_id)) invalid_account_owner
    manager ← unpack_pool_manager rt ledger manager_info.key
    reject_if (not ((ledger manager_info.key).owner == program_id)) invalid_account_owner
    reject_if (not (manager.token_program_id == token_program.key)) invalid_token_program
    reject_if (not owner_info.is_signer) invalid_signer
    ok ticket

  unfoldable pub process_init_ticket : Pubkey → List AccountInfo → Ledger → Result Ledger
  unfolding next_account_info check_ticket Ticket.init pack_ticket
  process_init_ticket program_id accounts ledger = do
    (ticket_info, accounts) ← next_account_info rt accounts
    (manager_info, accounts) ← next_account_info rt accounts
    (owner_info, accounts) ← next_account_info rt accounts
    (clock, accounts) ← next_account_info rt accounts
    slot ← rt.clock_slot clock ledger
    (rent, accounts) ← next_account_info rt accounts
    is_exempt ← rt.rent_is_exempt rent ledger
    (token_program, _) ← next_account_info rt accounts
    ticket ←
        check_ticket program_id is_exempt ticket_info manager_info owner_info token_program ledger
    pack_ticket rt
        (Ticket.init ticket (record {
          current_slot = slot;
          pool_manager = manager_info.key;
          owner = owner_info.key;
          deposits = [];
        }))
        ticket_info.key ledger
