-- ===== src/State/Ticket/PackRoundTrip.antt =====
-- A packed ticket is read back unchanged (src/state/ticket.rs).
use allwinprotocol.Base.{
  ℕ, ◌*◌, ◌≤◌, ◌≡◌, refl, List, [], ◌∷◌, ◌++◌, arith, take, drop, length, Fits, All, length-append,
  length-drop, take-append_length, length-take, le→ltb,
}
use allwinprotocol.Error.{ok}
use allwinprotocol.State.Common.{program_version}
use allwinprotocol.State.Codec.{write_fields}
use allwinprotocol.State.Codec.RoundTrip.{
  array_refs-write_fields, length-write_fields, drop-write_fields, FieldsFit, values,
  unpack_bool-pack_bool, pack_bool-lt, pack_decimal-ok, unwrap_u8-ok,
}
use allwinprotocol.State.Ticket.{Ticket, TicketCollateral, max_obligation_reserves}
use allwinprotocol.State.Ticket.Pack.{
  obligation_len, collateral_fields, pack_deposits, unpack_deposits, fields, from_fields,
  pack_into_slice, unpack_from_slice,
}

pub record CollateralFits (c : TicketCollateral) : Type 0 where
  pub reserve : Fits 256 c.deposit_reserve
  pub amount : Fits 64 c.deposited_amount
  pub value : Fits 128 c.market_value
  pub index : Fits 128 c.index

-- Every field fits its bytes, and the version is one that this program reads.
pub record InRange (t : Ticket) : Type 0 where
  pub version : t.version ≤ program_version
  pub slot : Fits 64 t.last_update.slot
  pub pool_manager : Fits 256 t.pool_manager
  pub owner : Fits 256 t.owner
  pub deposited_value : Fits 128 t.deposited_value
  pub unclaimed_mine : Fits 128 t.unclaimed_mine
  pub positions : length t.deposits ≤ max_obligation_reserves
  pub deposits : All CollateralFits t.deposits

abbrev own_collateral : TicketCollateral → List (ℕ × ℕ)
own_collateral c = collateral_fields c c.market_value c.index

abbrev pub deposit_bytes : List TicketCollateral → List ℕ → List ℕ
deposit_bytes [] data_flat = data_flat
deposit_bytes (c ∷ cs) data_flat =
    write_fields (own_collateral c) ++ deposit_bytes cs (drop 72 data_flat)

length-deposit_bytes :
    (cs : List TicketCollateral) (data_flat : List ℕ)
    → 72 * length cs ≤ length data_flat
    → length (deposit_bytes cs data_flat) ≡ length data_flat
length-deposit_bytes [] data_flat h = refl
length-deposit_bytes (c ∷ cs) data_flat h = omega (
  arith,
  length-append (write_fields (own_collateral c)) (deposit_bytes cs (drop 72 data_flat)),
  length-write_fields (own_collateral c),
  length-deposit_bytes cs (drop 72 data_flat) (omega (arith, length-drop 72 data_flat)),
  length-drop 72 data_flat,
)

pack_deposits-bytes :
    (cs : List TicketCollateral) (data_flat : List ℕ)
    → All CollateralFits cs
    → 72 * length cs ≤ length data_flat
    → pack_deposits cs data_flat ≡ ok (deposit_bytes cs data_flat)
unfolding pack_deposits
pack_deposits-bytes [] data_flat f h = refl
pack_deposits-bytes (c ∷ cs) data_flat f h = rw (
  le→ltb (length data_flat) 72 (omega arith),
  pack_decimal-ok c.market_value f.0.value,
  pack_decimal-ok c.index f.0.index,
  pack_deposits-bytes cs (drop 72 data_flat) f.1 (omega (arith, length-drop 72 data_flat)),
)

unpack_deposits-bytes :
    (cs : List TicketCollateral) (data_flat : List ℕ)
    → All CollateralFits cs
    → 72 * length cs ≤ length data_flat
    → unpack_deposits (length cs) (deposit_bytes cs data_flat) ≡ ok cs
unfolding unpack_deposits
unpack_deposits-bytes [] data_flat f h = refl
unpack_deposits-bytes (c ∷ cs) data_flat f h =
    let rest : List ℕ = deposit_bytes cs (drop 72 data_flat) in
    let fit : FieldsFit (own_collateral c) = omega arith in
    let read = array_refs-write_fields (own_collateral c) rest fit in
    rw (drop-write_fields (own_collateral c) rest) (
      ground (
        arith,
        read,
        length-deposit_bytes (c ∷ cs) data_flat h,
        unpack_deposits-bytes cs (drop 72 data_flat) f.1 (omega (arith, length-drop 72 data_flat)),
      ))

abbrev own_fields : Ticket → List (ℕ × ℕ)
own_fields t = fields t t.deposited_value (length t.deposits) t.unclaimed_mine

module _ (t : Ticket) (dst : List ℕ) (r : InRange t) (size : length dst ≡ obligation_len) where
  abbrev flat : List ℕ
  flat = take 720 (drop 107 dst)

  abbrev packed_ticket : List ℕ
  packed_ticket =
      write_fields (own_fields t) ++ (deposit_bytes t.deposits flat ++ drop obligation_len dst)

  length-flat : length flat ≡ 720
  length-flat = omega (arith, length-take 720 (drop 107 dst), length-drop 107 dst)

  length-positions : length (deposit_bytes t.deposits flat) ≡ 720
  length-positions = omega (
    arith,
    length-deposit_bytes t.deposits flat (omega (arith, length-flat, r.positions)),
    length-flat,
  )

  packed_size : length packed_ticket ≡ obligation_len
  packed_size = omega (
    arith,
    length-append (write_fields (own_fields t))
        (deposit_bytes t.deposits flat ++ drop obligation_len dst),
    length-append (deposit_bytes t.deposits flat) (drop obligation_len dst),
    length-write_fields (own_fields t),
    length-positions,
    length-drop obligation_len dst,
  )

  packed_fields : pack_into_slice t dst ≡ ok packed_ticket
  unfolding pack_into_slice
  packed_fields = rw (
    size,
    pack_decimal-ok t.deposited_value r.deposited_value,
    unwrap_u8-ok (length t.deposits) (omega (arith, r.positions)),
    pack_decimal-ok t.unclaimed_mine r.unclaimed_mine,
    pack_deposits-bytes t.deposits flat r.deposits (omega (arith, length-flat, r.positions)),
  )

  positions_back : take 720 (drop 107 packed_ticket) ≡ deposit_bytes t.deposits flat
  positions_back =
      rw
        (drop-write_fields (own_fields t)
          (deposit_bytes t.deposits flat ++ drop obligation_len dst))
        (take-append_length 720 (deposit_bytes t.deposits flat) (drop obligation_len dst)
          length-positions)

  fit : FieldsFit (own_fields t)
  fit = omega (arith, pack_bool-lt t.last_update.stale)

  read_back : from_fields (values (own_fields t)) (deposit_bytes t.deposits flat) ≡ ok t
  unfolding from_fields
  read_back = rw (
    le→ltb program_version t.version r.version,
    unpack_deposits-bytes t.deposits flat r.deposits (omega (arith, length-flat, r.positions)),
    unpack_bool-pack_bool t.last_update.stale,
  )

  -- A ticket of at most ten positions whose fields fit their bytes, and whose version this program
  -- reads, is packed into an account of its size and read back unchanged, and the packed account
  -- keeps its size.
  pub unpack-pack_ticket :
      (bytes : List ℕ) × (pack_into_slice t dst ≡ ok bytes)
      × (length bytes ≡ obligation_len)
      × (unpack_from_slice bytes ≡ ok t)
  unfolding unpack_from_slice
  unpack-pack_ticket = (
    packed_ticket,
    packed_fields,
    packed_size,
    rw (packed_size, positions_back, array_refs-write_fields (own_fields t) _ fit) read_back,
  )
