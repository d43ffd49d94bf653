-- ===== src/State/Ticket/PackLength.antt =====
-- Packing a ticket keeps the length of its account (src/state/ticket.rs).
use allwinprotocol.Base.{
  ℕ, ◌≡◌, List, [], ◌∷◌, ◌++◌, arith, take, drop, length, ltb, ltb→le, Bool-cases, inl, inr,
  length-append, length-drop, length-take,
}
use allwinprotocol.Error.{ok, >>=-eq-ok}
use allwinprotocol.State.Codec.{write_fields, unwrap_u8}
use allwinprotocol.State.Codec.RoundTrip.{length-write_fields, pack_decimal->>=}
use allwinprotocol.State.Ticket.{Ticket, TicketCollateral}
use allwinprotocol.State.Ticket.Pack.{
  obligation_len, collateral_fields, pack_deposits, fields, pack_into_slice,
}

length-pack_deposits :
    (cs : List TicketCollateral) (data_flat packed : List ℕ)
    → pack_deposits cs data_flat ≡ ok packed
    → length packed ≡ length data_flat
unfolding pack_deposits
length-pack_deposits [] data_flat packed h = ground arith
length-pack_deposits (c ∷ cs) data_flat packed h = elim (Bool-cases (ltb (length data_flat) 72)) [
  | inl short ↦ let h0 = rw short at h in cc
  | inr long ↦
      let h0 = rw long at h in
      let h1 = pack_decimal->>= c.market_value _ h0 in
      let h2 = pack_decimal->>= c.index _ h1 in
      let (rest, packs, made) = >>=-eq-ok (pack_deposits cs (drop 72 data_flat)) _ h2 in
      let ih = length-pack_deposits cs (drop 72 data_flat) rest packs in
      let room = ltb→le (length data_flat) 72 long in
      let same : write_fields (collateral_fields c c.market_value c.index) ++ rest ≡ packed = cc in
      rw (← same) (
        omega (
          arith,
          ih,
          room,
          length-append {0} (write_fields (collateral_fields c c.market_value c.index)) rest,
          length-write_fields (collateral_fields c c.market_value c.index),
          length-drop {0} 72 data_flat,
        ))
]

pub length-pack_ticket :
    (t : Ticket) (dst bytes : List ℕ)
    → length dst ≡ obligation_len
    → pack_into_slice t dst ≡ ok bytes
    → length bytes ≡ obligation_len
unfolding pack_into_slice
length-pack_ticket t dst bytes size h =
    let h0 = rw size at h in
    let h1 = pack_decimal->>= t.deposited_value _ h0 in
    let (n, count, h2) = >>=-eq-ok (unwrap_u8 (length t.deposits)) _ h1 in
    let h3 = pack_decimal->>= t.unclaimed_mine _ h2 in
    let (packed, packs, made) =
      >>=-eq-ok (pack_deposits t.deposits (take 720 (drop 107 dst))) _ h3 in
    let flat = length-pack_deposits t.deposits (take 720 (drop 107 dst)) packed packs in
    let same : write_fields (fields t t.deposited_value n t.unclaimed_mine)
          ++ (packed ++ drop obligation_len dst)
        ≡ bytes =
      cc in
    rw (← same) (
      omega (
        arith,
        flat,
        size,
        length-append {0} (write_fields (fields t t.deposited_value n t.unclaimed_mine))
            (packed ++ drop obligation_len dst),
        length-append {0} packed (drop obligation_len dst),
        length-write_fields (fields t t.deposited_value n t.unclaimed_mine),
        length-take {0} 720 (drop 107 dst),
        length-drop {0} 107 dst,
        length-drop {0} obligation_len dst,
      ))
