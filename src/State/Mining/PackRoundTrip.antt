-- ===== src/State/Mining/PackRoundTrip.antt =====
-- A packed mining account is read back unchanged (src/state/mining.rs).
use allwinprotocol.Base.{
  ℕ, ◌*◌, ◌≤◌, ◌≡◌, refl, List, [], ◌∷◌, ◌++◌, arith, take, drop, length, Fits, All, length-append,
  length-drop, take-append_length, length-take, le→ltb,
}
use allwinprotocol.Error.{ok}
use allwinprotocol.State.Common.{program_version}
use allwinprotocol.State.Codec.{write_fields}
use allwinprotocol.State.Codec.RoundTrip.{
  array_refs-write_fields, length-write_fields, drop-write_fields, FieldsFit, values,
  pack_decimal-ok, unwrap_u8-ok,
}
use allwinprotocol.State.Mining.{Mining, MiningIndex, max_mining_volume}
use allwinprotocol.State.Mining.Pack.{
  mining_len, index_fields, pack_indices, unpack_indices, fields, from_fields, pack_into_slice,
  unpack_from_slice,
}

pub record IndexFits (x : MiningIndex) : Type 0 where
  pub reserve : Fits 256 x.reserve
  pub amount : Fits 64 x.un_coll_l_token_amount
  pub index : Fits 128 x.index

-- Every field fits its bytes, and the version is one that this program reads.
pub record InRange (m : Mining) : Type 0 where
  pub version : m.version ≤ program_version
  pub owner : Fits 256 m.owner
  pub pool_manager : Fits 256 m.pool_manager
  pub unclaimed_mine : Fits 128 m.unclaimed_mine
  pub positions : length m.mining_indices ≤ max_mining_volume
  pub indices : All IndexFits m.mining_indices

abbrev own_index : MiningIndex → List (ℕ × ℕ)
own_index x = index_fields x x.index

abbrev index_bytes : List MiningIndex → List ℕ → List ℕ
index_bytes [] data_flat = data_flat
index_bytes (x ∷ xs) data_flat = write_fields (own_index x) ++ index_bytes xs (drop 56 data_flat)

length-index_bytes :
    (xs : List MiningIndex) (data_flat : List ℕ)
    → 56 * length xs ≤ length data_flat
    → length (index_bytes xs data_flat) ≡ length data_flat
length-index_bytes [] data_flat h = refl
length-index_bytes (x ∷ xs) data_flat h = omega (
  arith,
  length-append (write_fields (own_index x)) (index_bytes xs (drop 56 data_flat)),
  length-write_fields (own_index x),
  length-index_bytes xs (drop 56 data_flat) (omega (arith, length-drop 56 data_flat)),
  length-drop 56 data_flat,
)

pack_indices-bytes :
    (xs : List MiningIndex) (data_flat : List ℕ)
    → All IndexFits xs
    → 56 * length xs ≤ length data_flat
    → pack_indices xs data_flat ≡ ok (index_bytes xs data_flat)
unfolding pack_indices
pack_indices-bytes [] data_flat f h = refl
pack_indices-bytes (x ∷ xs) data_flat f h = rw (
  le→ltb (length data_flat) 56 (omega arith),
  pack_decimal-ok x.index f.0.index,
  pack_indices-bytes xs (drop 56 data_flat) f.1 (omega (arith, length-drop 56 data_flat)),
)

unpack_indices-bytes :
    (xs : List MiningIndex) (data_flat : List ℕ)
    → All IndexFits xs
    → 56 * length xs ≤ length data_flat
    → unpack_indices (length xs) (index_bytes xs data_flat) ≡ ok xs
unfolding unpack_indices
unpack_indices-bytes [] data_flat f h = refl
unpack_indices-bytes (x ∷ xs) data_flat f h =
    let rest : List ℕ = index_bytes xs (drop 56 data_flat) in
    let fit : FieldsFit (own_index x) = omega arith in
    let read = array_refs-write_fields (own_index x) rest fit in
    rw (drop-write_fields (own_index x) rest) (
      ground (
        arith,
        read,
        length-index_bytes (x ∷ xs) data_flat h,
        unpack_indices-bytes xs (drop 56 data_flat) f.1 (omega (arith, length-drop 56 data_flat)),
      ))

abbrev own_fields : Mining → List (ℕ × ℕ)
own_fields m = fields m (length m.mining_indices) m.unclaimed_mine

module _ (m : Mining) (dst : List ℕ) (r : InRange m) (size : length dst ≡ mining_len) where
  abbrev flat : List ℕ
  flat = take 560 (drop 82 dst)

  abbrev packed_mining : List ℕ
  packed_mining =
      write_fields (own_fields m) ++ (index_bytes m.mining_indices flat ++ drop mining_len dst)

  length-flat : length flat ≡ 560
  length-flat = omega (arith, length-take 560 (drop 82 dst), length-drop 82 dst)

  length-positions : length (index_bytes m.mining_indices flat) ≡ 560
  length-positions = omega (
    arith,
    length-index_bytes m.mining_indices flat (omega (arith, length-flat, r.positions)),
    length-flat,
  )

  packed_size : length packed_mining ≡ mining_len
  packed_size = omega (
    arith,
    length-append (write_fields (own_fields m))
        (index_bytes m.mining_indices flat ++ drop mining_len dst),
    length-append (index_bytes m.mining_indices flat) (drop mining_len dst),
    length-write_fields (own_fields m),
    length-positions,
    length-drop mining_len dst,
  )

  packed_fields : pack_into_slice m dst ≡ ok packed_mining
  unfolding pack_into_slice
  packed_fields = rw (
    size,
    unwrap_u8-ok (length m.mining_indices) (omega (arith, r.positions)),
    pack_decimal-ok m.unclaimed_mine r.unclaimed_mine,
    pack_indices-bytes m.mining_indices flat r.indices (omega (arith, length-flat, r.positions)),
  )

  positions_back : take 560 (drop 82 packed_mining) ≡ index_bytes m.mining_indices flat
  positions_back =
      rw
        (drop-write_fields (own_fields m)
          (index_bytes m.mining_indices flat ++ drop mining_len dst))
        (take-append_length 560 (index_bytes m.mining_indices flat) (drop mining_len dst)
          length-positions)

  fit : FieldsFit (own_fields m)
  fit = omega arith

  read_back : from_fields (values (own_fields m)) (index_bytes m.mining_indices flat) ≡ ok m
  unfolding from_fields
  read_back = rw (
    le→ltb program_version m.version r.version,
    unpack_indices-bytes m.mining_indices flat r.indices (omega (arith, length-flat, r.positions)),
  )

  -- A mining account of at most ten positions whose fields fit their bytes, and whose version this
  -- program reads, is packed into an account of its size and read back unchanged, and the packed
  -- account keeps its size.
  pub unpack-pack_mining :
      (bytes : List ℕ) × (pack_into_slice m dst ≡ ok bytes)
      × (length bytes ≡ mining_len)
      × (unpack_from_slice bytes ≡ ok m)
  unfolding unpack_from_slice
  unpack-pack_mining = (
    packed_mining,
    packed_fields,
    packed_size,
    rw (packed_size, positions_back, array_refs-write_fields (own_fields m) _ fit) read_back,
  )
