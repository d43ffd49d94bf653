-- ===== src/Tests/RefreshTicket.antt =====
-- The theorem on the refresh of a ticket at a concrete input.
use allwinprotocol.Base.{ℕ, ◌≡◌, refl, List, [], ◌∷◌, ◌++◌, ◌==◌, if◌then◌else◌, replicate}
use allwinprotocol.Error.{ok}
use allwinprotocol.State.Common.{Slot}
use allwinprotocol.State.Codec.{
  write_fields, to_le_bytes, array_refs, from_le_bytes, unpack_bool, pack_bool, pack_decimal,
  unwrap_u8,
}
use allwinprotocol.State.Pool
use allwinprotocol.State.Pool.{Pool}
use allwinprotocol.State.Pool.Pack as PoolPack
use allwinprotocol.Processor.Runtime.{Ledger}
use allwinprotocol.Processor.Accounts.{write_bytes}
use allwinprotocol.State.Ticket.{Ticket}
use allwinprotocol.State.Ticket
use allwinprotocol.State.Ticket.Pack as TicketPack
use allwinprotocol.State.Ticket.PackRoundTrip.{deposit_bytes}
use allwinprotocol.Processor.RefreshTicket.{process_refresh_ticket, unpack_ticket}
use allwinprotocol.Processor.RefreshTicket.Values.{IsRevalued, process_refresh_ticket-IsRevalued}
use allwinprotocol.Tests.Data.{ticket, position_of}
use allwinprotocol.Tests.Runtime.{rt, ledger, account}

-- A ticket under the key 4, with 100 shares of the pool
abbrev before : Ticket
before = record ticket { deposits = position_of 3 100 ∷ [] }

abbrev ticket_bytes : Ticket → List ℕ
ticket_bytes t =
    write_fields (
      (1, 1)
      ∷ (8, 100)
      ∷ (1, 0)
      ∷ (32, 11)
      ∷ (32, 61)
      ∷ (16, t.deposited_value)
      ∷ (1, 1)
      ∷ (16, t.unclaimed_mine)
      ∷ [])
    ++ (deposit_bytes t.deposits (replicate 720 0))

abbrev with_ticket : Ledger
with_ticket = λ k.
    if k == 4
    then record { owner = 900; lamports = 1000; bytes = ticket_bytes before }
    else ledger k

-- The pool's token has six decimals and a price of 3.
abbrev after : Ticket
after = record before {
  deposits =
      (record (position_of 3 100) {
        index = 5_000_000_000_000_000_000;
        market_value = 300_000_000_000_000;
      })
      ∷ [];
  deposited_value = 300_000_000_000_000;
  unclaimed_mine = 100_000_000_000_000_000_009;
}

abbrev after_refresh : Ledger
after_refresh = write_bytes with_ticket 4 (ticket_bytes after)

ticket_refreshed :
    process_refresh_ticket rt 900 (account 4 ∷ account 7 ∷ account 3 ∷ []) with_ticket
    ≡ ok after_refresh
unfolding process_refresh_ticket write_bytes write_fields to_le_bytes PoolPack.unpack_from_slice
    array_refs from_le_bytes unpack_bool pack_bool Pool.is_initialized pack_decimal
    TicketPack.unpack_from_slice Ticket.is_initialized TicketPack.pack_into_slice unwrap_u8
ticket_refreshed = refl

process_refresh_ticket-IsRevalued_example :
    (slot : Slot) × (t : Ticket) × (rt.clock_slot (account 7) with_ticket ≡ ok slot)
    × (unpack_ticket rt with_ticket 4 ≡ ok t)
    × ((with_ticket 4).owner ≡ 900)
    × IsRevalued rt slot 4 t with_ticket after_refresh
process_refresh_ticket-IsRevalued_example =
    process_refresh_ticket-IsRevalued rt 900 (account 4) (account 7) (account 3 ∷ []) with_ticket
      after_refresh ticket_refreshed
