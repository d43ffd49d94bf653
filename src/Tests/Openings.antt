-- ===== src/Tests/Openings.antt =====
-- The theorems on new tickets and on the refresh of a pool at concrete inputs.
use allwinprotocol.Base.{◌≡◌, refl, [], ◌∷◌, ◌++◌, ◌==◌, if◌then◌else◌, replicate}
use allwinprotocol.Error.{ok}
use allwinprotocol.State.Common.{Slot}
use allwinprotocol.State.Codec.{
  write_fields, to_le_bytes, array_refs, from_le_bytes, unpack_bool, pack_bool, pack_decimal,
  unwrap_u8,
}
use allwinprotocol.State.Pool
use allwinprotocol.State.Pool.Pack as PoolPack
use allwinprotocol.State.PoolManager
use allwinprotocol.State.PoolManager.Pack as ManagerPack
use allwinprotocol.State.Ticket
use allwinprotocol.State.Ticket.Pack as TicketPack
use allwinprotocol.Processor.Runtime.{Ledger}
use allwinprotocol.Processor.Accounts.{write_bytes}
use allwinprotocol.Processor.InitTicket.{process_init_ticket}
use allwinprotocol.Processor.InitTicket.Opening.{
  IsTicketOpening, process_init_ticket-IsTicketOpening,
}
use allwinprotocol.Tests.Runtime.{rt, account}
use allwinprotocol.Tests.History.{managed}

-- Key 4 is to have a ticket of the user 61.
abbrev before_ticket : Ledger
before_ticket = λ k.
    if k == 4 then record { owner = 900; lamports = 1000; bytes = replicate 827 0 } else managed k

abbrev with_ticket : Ledger
with_ticket = write_bytes before_ticket 4 (
    write_fields
      ((1, 1) ∷ (8, 100) ∷ (1, 1) ∷ (32, 11) ∷ (32, 61) ∷ (16, 0) ∷ (1, 0) ∷ (16, 0) ∷ [])
    ++ replicate 720 0)

ticket_opens :
    process_init_ticket rt 900
      (account 4 ∷ account 11 ∷ account 61 ∷ account 7 ∷ account 8 ∷ account 12 ∷ [])
      before_ticket
    ≡ ok with_ticket
unfolding process_init_ticket write_bytes to_le_bytes write_fields TicketPack.unpack_from_slice
    array_refs from_le_bytes unpack_bool Ticket.is_initialized ManagerPack.unpack_from_slice
    PoolManager.is_initialized TicketPack.pack_into_slice pack_decimal unwrap_u8 pack_bool
ticket_opens = refl

process_init_ticket-IsTicketOpening_example :
    (slot : Slot) × (rt.clock_slot (account 7) before_ticket ≡ ok slot)
    × IsTicketOpening rt 900
        (account 4)
        (account 11)
        (account 61)
        (account 12)
        slot
        before_ticket
        with_ticket
process_init_ticket-IsTicketOpening_example =
    process_init_ticket-IsTicketOpening rt 900 (account 4) (account 11) (account 61) (account 7)
      (account 8) (account 12) [] before_ticket with_ticket ticket_opens
