-- ===== src/State/Ticket/Pack.antt =====
-- The 827 bytes of a ticket's account (src/state/ticket.rs): a header of 107 bytes and room for ten
-- positions of 72 bytes each. More than ten positions are a slice out of bounds, which panics.
use allwinprotocol.Base.{ℕ, zero, suc, List, [], ◌∷◌, ◌++◌, ltb, if◌then◌else◌, take, drop, length}
use allwinprotocol.Error.{Result, ok, err, panic, invalid_account_data, ◌>>=◌}
use allwinprotocol.State.Common.{program_version}
use allwinprotocol.State.Codec.{
  array_refs, write_fields, pack_decimal, unpack_decimal, pack_bool, unpack_bool, unwrap_u8,
}
use allwinprotocol.State.Ticket.{Ticket, TicketCollateral}

abbrev pub obligation_collateral_len : ℕ
obligation_collateral_len = 72

abbrev pub obligation_len : ℕ
obligation_len = 827

abbrev pub collateral_fields : TicketCollateral → ℕ → ℕ → List (ℕ × ℕ)
collateral_fields c market_value index =
    (32, c.deposit_reserve) ∷ (8, c.deposited_amount) ∷ (16, market_value) ∷ (16, index) ∷ []

-- The loop over the positions: each is written over the next 72 bytes of `data_flat`, and the rest of
-- the bytes is left as it is.
unfoldable pub pack_deposits : List TicketCollateral → List ℕ → Result (List ℕ)
pack_deposits [] data_flat = ok data_flat
pack_deposits (c ∷ cs) data_flat =
    let rest = pack_deposits cs (drop obligation_collateral_len data_flat) in
    if ltb (length data_flat) obligation_collateral_len then panic else do
      market_value ← pack_decimal c.market_value
      index ← pack_decimal c.index
      packed ← rest
      ok (write_fields (collateral_fields c market_value index) ++ packed)

abbrev pub fields : Ticket → ℕ → ℕ → ℕ → List (ℕ × ℕ)
fields t deposited_value deposits_len unclaimed_mine =
    (1, t.version)
    ∷ (8, t.last_update.slot)
    ∷ (1, pack_bool t.last_update.stale)
    ∷ (32, t.pool_manager)
    ∷ (32, t.owner)
    ∷ (16, deposited_value)
    ∷ (1, deposits_len)
    ∷ (16, unclaimed_mine)
    ∷ []

-- `array_mut_ref![dst, 0, OBLIGATION_LEN]`: bytes beyond 827 are not touched.
unfoldable pub pack_into_slice : Ticket → List ℕ → Result (List ℕ)
unfolding pack_deposits
pack_into_slice t dst = if ltb (length dst) obligation_len then panic else do
  deposited_value ← pack_decimal t.deposited_value
  deposits_len ← unwrap_u8 (length t.deposits)
  unclaimed_mine ← pack_decimal t.unclaimed_mine
  packed ← pack_deposits t.deposits (take 720 (drop 107 dst))
  ok (
      write_fields (fields t deposited_value deposits_len unclaimed_mine)
      ++ (packed ++ drop obligation_len dst))

unfoldable pub collateral_from_fields : List ℕ → Result TicketCollateral
unfolding unpack_decimal
collateral_from_fields (deposit_reserve ∷ deposited_amount ∷ market_value ∷ index ∷ []) =
    ok (record {
      index = unpack_decimal index;
      deposit_reserve = deposit_reserve;
      deposited_amount = deposited_amount;
      market_value = unpack_decimal market_value;
    })
collateral_from_fields _ = panic

-- `for _ in 0..deposits_len`
unfoldable pub unpack_deposits : ℕ → List ℕ → Result (List TicketCollateral)
unfolding collateral_from_fields
unpack_deposits zero data_flat = ok []
unpack_deposits (suc n) data_flat =
    let rest = unpack_deposits n (drop obligation_collateral_len data_flat) in
    if ltb (length data_flat) obligation_collateral_len then panic else do
      c ← collateral_from_fields (array_refs (32 ∷ 8 ∷ 16 ∷ 16 ∷ []) data_flat)
      cs ← rest
      ok (c ∷ cs)

unfoldable pub from_fields : List ℕ → List ℕ → Result Ticket
unfolding unpack_deposits unpack_decimal
from_fields
      (version ∷ last_update_slot ∷ last_update_stale ∷ pool_manager ∷ owner ∷ deposited_value
        ∷ deposits_len ∷ unclaimed_mine ∷ [])
      data_flat =
    if ltb program_version version then err invalid_account_data else do
      deposits ← unpack_deposits deposits_len data_flat
      stale ← unpack_bool last_update_stale
      ok (record {
        version = version;
        last_update = record { slot = last_update_slot; stale = stale };
        pool_manager = pool_manager;
        owner = owner;
        deposits = deposits;
        deposited_value = unpack_decimal deposited_value;
        unclaimed_mine = unpack_decimal unclaimed_mine;
      })
from_fields _ data_flat = panic

abbrev pub header_widths : List ℕ
header_widths = 1 ∷ 8 ∷ 1 ∷ 32 ∷ 32 ∷ 16 ∷ 1 ∷ 16 ∷ []

unfoldable pub unpack_from_slice : List ℕ → Result Ticket
unfolding from_fields
unpack_from_slice src =
    if ltb (length src) obligation_len
    then panic
    else from_fields (array_refs header_widths src) (take 720 (drop 107 src))
