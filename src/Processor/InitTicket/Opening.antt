-- ===== src/Processor/InitTicket/Opening.antt =====
-- What the checks of a new ticket establish (`process_init_ticket` of src/processor.rs), and how the
-- ticket starts.
use allwinprotocol.Base.{ℕ, Bool, ◌≡◌, refl, true, false, not, List, [], ◌∷◌}
use allwinprotocol.Error.{
  ok, >>=-eq-ok, invalid_account_owner, invalid_token_program, invalid_signer,
}
use allwinprotocol.State.Common.{Pubkey, Slot, program_version}
use allwinprotocol.State.PoolManager.{PoolManager}
use allwinprotocol.State.Ticket
use allwinprotocol.State.Ticket.{Ticket}
use allwinprotocol.State.Ticket.Pack as TicketPack
use allwinprotocol.Processor.Runtime.{Ledger, AccountInfo, Runtime}
use allwinprotocol.Processor.Accounts.{unpack_pool_manager, next_account_info}
use allwinprotocol.Processor.Exchange.{reject_if-eq-ok, require-eq-ok}
use allwinprotocol.Processor.Guards.{assert_rent_exempt, assert_uninitialized}
use allwinprotocol.Processor.RefreshTicket.{pack_ticket}
use allwinprotocol.Processor.InitTicket.{check_ticket, process_init_ticket}

-- A ticket without positions, whose values are those of the account before it
abbrev pub new_ticket : Ticket → Slot → (manager_key owner_key : Pubkey) → Ticket
new_ticket old slot manager_key owner_key = record {
  version = program_version;
  last_update = record { slot = slot; stale = true };
  pool_manager = manager_key;
  owner = owner_key;
  deposits = [];
  deposited_value = old.deposited_value;
  unclaimed_mine = old.unclaimed_mine;
}

-- The ticket's account and the manager are the program's, no ticket was initialised in the account,
-- the manager trusts the token program that is passed, and the ticket's owner has signed.
pub record IsTicketOpening (rt : Runtime) (program_id : Pubkey)
    (ticket manager owner token_program : AccountInfo) (slot : Slot) (ledger ledger' : Ledger)
    : Type 0 where
  pub ticket_owned : (ledger ticket.key).owner ≡ program_id
  pub old : Ticket
  pub unused :
      assert_uninitialized rt TicketPack.obligation_len TicketPack.unpack_from_slice
        Ticket.is_initialized
        (ledger ticket.key).bytes
      ≡ ok old
  pub pool_manager : PoolManager
  pub manager_read : unpack_pool_manager rt ledger manager.key ≡ ok pool_manager
  pub manager_owned : (ledger manager.key).owner ≡ program_id
  pub trusted : pool_manager.token_program_id ≡ token_program.key
  pub signed : owner.is_signer ≡ true
  pub stored :
      pack_ticket rt (new_ticket old slot manager.key owner.key) ticket.key ledger ≡ ok ledger'

not_signed : (b : Bool) → not b ≡ false → b ≡ true
not_signed true h = refl
not_signed false h = cc

module _ (rt : Runtime) (program_id : Pubkey) where
  pub check_ticket-eq_ok :
      (is_exempt : ℕ → ℕ → Bool) (ticket manager owner token_program : AccountInfo)
      (ledger : Ledger) (old : Ticket)
      → check_ticket rt program_id is_exempt ticket manager owner token_program ledger ≡ ok old
      → (m : PoolManager) × ((ledger ticket.key).owner ≡ program_id)
        × (assert_uninitialized rt TicketPack.obligation_len TicketPack.unpack_from_slice
              Ticket.is_initialized
              (ledger ticket.key).bytes
            ≡ ok old)
        × (unpack_pool_manager rt ledger manager.key ≡ ok m)
        × ((ledger manager.key).owner ≡ program_id)
        × (m.token_program_id ≡ token_program.key)
        × (owner.is_signer ≡ true)
  unfolding check_ticket
  check_ticket-eq_ok is_exempt ticket manager owner token_program ledger old h =
      let (_, _, h1) = >>=-eq-ok (assert_rent_exempt is_exempt (ledger ticket.key)) _ h in
      let (old', unused, h2) =
        >>=-eq-ok
          (assert_uninitialized rt TicketPack.obligation_len TicketPack.unpack_from_slice
            Ticket.is_initialized (ledger ticket.key).bytes)
          _ h1 in
      let (owned, h3) =
        require-eq-ok (ledger ticket.key).owner program_id invalid_account_owner _ h2 in
      let (m, read, h4) = >>=-eq-ok (unpack_pool_manager rt ledger manager.key) _ h3 in
      let (m_owned, h5) =
        require-eq-ok (ledger manager.key).owner program_id invalid_account_owner _ h4 in
      let (trusted, h6) =
        require-eq-ok m.token_program_id token_program.key invalid_token_program _ h5 in
      let (signs, made) = reject_if-eq-ok (not owner.is_signer) invalid_signer _ h6 in
      let same : old' ≡ old = cc in
      (m, owned, rw same at unused, read, m_owned, trusted, not_signed owner.is_signer signs)

  -- A ticket is opened with success only if its owner has signed; its account and the pool manager
  -- belong to the program, no ticket was initialised in that account, and the manager trusts the
  -- token program that is passed. The ticket that is stored has the current version, belongs to the
  -- signer and the manager, has no positions, is stale from the slot of the clock on, and keeps the
  -- value and the rewards that the account held.
  pub process_init_ticket-IsTicketOpening :
      (ticket manager owner clock rent token_program : AccountInfo) (rest : List AccountInfo)
      (ledger ledger' : Ledger)
      → process_init_ticket rt program_id
          (ticket ∷ manager ∷ owner ∷ clock ∷ rent ∷ token_program ∷ rest)
          ledger
        ≡ ok ledger'
      → (slot : Slot) × (rt.clock_slot clock ledger ≡ ok slot)
        × IsTicketOpening rt program_id ticket manager owner token_program slot ledger ledger'
  unfolding process_init_ticket next_account_info
  process_init_ticket-IsTicketOpening ticket manager owner clock rent token_program rest ledger
        ledger' h =
      let (slot, time, h1) = >>=-eq-ok (rt.clock_slot clock ledger) _ h in
      let (is_exempt, _, h2) = >>=-eq-ok (rt.rent_is_exempt rent ledger) _ h1 in
      let (old, checks, stores) =
        >>=-eq-ok (check_ticket rt program_id is_exempt ticket manager owner token_program ledger) _
          h2 in
      let (m, owned, unused, read, m_owned, trusted, signs) =
        check_ticket-eq_ok is_exempt ticket manager owner token_program ledger old checks in
      (
        slot,
        time,
        record {
          ticket_owned = owned;
          old = old;
          unused = unused;
          pool_manager = m;
          manager_read = read;
          manager_owned = m_owned;
          trusted = trusted;
          signed = signs;
          stored = stores;
        },
      )
