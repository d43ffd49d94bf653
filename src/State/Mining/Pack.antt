-- ===== src/State/Mining/Pack.antt =====
-- The 642 bytes of a mining account (src/state/mining.rs): a header of 82 bytes and room for ten
-- positions of 56 bytes each. More than ten positions are a slice out of bounds, which panics.
use allwinprotocol.Base.{ℕ, zero, suc, List, [], ◌∷◌, ◌++◌, ltb, if◌then◌else◌, take, drop, length}
use allwinprotocol.Error.{Result, ok, err, panic, invalid_account_data, ◌>>=◌}
use allwinprotocol.State.Common.{program_version}
use allwinprotocol.State.Codec.{array_refs, write_fields, pack_decimal, unpack_decimal, unwrap_u8}
use allwinprotocol.State.Mining.{Mining, MiningIndex}

abbrev pub mining_index_len : ℕ
mining_index_len = 56

abbrev pub mining_len : ℕ
mining_len = 642

abbrev pub index_fields : MiningIndex → ℕ → List (ℕ × ℕ)
index_fields x index = (32, x.reserve) ∷ (8, x.un_coll_l_token_amount) ∷ (16, index) ∷ []

-- The loop over the positions: each is written over the next 56 bytes of `data_flat`, and the rest of
-- the bytes is left as it is.
unfoldable pub pack_indices : List MiningIndex → List ℕ → Result (List ℕ)
pack_indices [] data_flat = ok data_flat
pack_indices (x ∷ xs) data_flat =
    let rest = pack_indices xs (drop mining_index_len data_flat) in
    if ltb (length data_flat) mining_index_len then panic else do
      index ← pack_decimal x.index
      packed ← rest
      ok (write_fields (index_fields x index) ++ packed)

abbrev pub fields : Mining → ℕ → ℕ → List (ℕ × ℕ)
fields m reserves_len unclaimed_mine =
    (1, m.version)
    ∷ (32, m.owner)
    ∷ (32, m.pool_manager)
    ∷ (1, reserves_len)
    ∷ (16, unclaimed_mine)
    ∷ []

-- `array_mut_ref![dst, 0, MINING_LEN]`: bytes beyond 642 are not touched.
unfoldable pub pack_into_slice : Mining → List ℕ → Result (List ℕ)
pack_into_slice m dst = if ltb (length dst) mining_len then panic else do
  reserves_len ← unwrap_u8 (length m.mining_indices)
  unclaimed_mine ← pack_decimal m.unclaimed_mine
  packed ← pack_indices m.mining_indices (take 560 (drop 82 dst))
  ok (write_fields (fields m reserves_len unclaimed_mine) ++ (packed ++ drop mining_len dst))

unfoldable pub index_from_fields : List ℕ → Result MiningIndex
unfolding unpack_decimal
index_from_fields (reserve ∷ un_coll_l_token_amount ∷ index ∷ []) = ok (record {
  reserve = reserve;
  un_coll_l_token_amount = un_coll_l_token_amount;
  index = unpack_decimal index;
})
index_from_fields _ = panic

-- `for _ in 0..reserves_len`
unfoldable pub unpack_indices : ℕ → List ℕ → Result (List MiningIndex)
unfolding index_from_fields
unpack_indices zero data_flat = ok []
unpack_indices (suc n) data_flat =
    let rest = unpack_indices n (drop mining_index_len data_flat) in
    if ltb (length data_flat) mining_index_len
    then panic
    else do x ← index_from_fields (array_refs (32 ∷ 8 ∷ 16 ∷ []) data_flat); xs ← rest; ok (x ∷ xs)

unfoldable pub from_fields : List ℕ → List ℕ → Result Mining
unfolding unpack_decimal
from_fields (version ∷ owner ∷ lending_market ∷ reserves_len ∷ unclaimed_mine ∷ []) data_flat =
    if ltb program_version version then err invalid_account_data else do
      mining_indices ← unpack_indices reserves_len data_flat
      ok (record {
        version = version;
        owner = owner;
        pool_manager = lending_market;
        mining_indices = mining_indices;
        unclaimed_mine = unpack_decimal unclaimed_mine;
      })
from_fields _ data_flat = panic

abbrev pub header_widths : List ℕ
header_widths = 1 ∷ 32 ∷ 32 ∷ 1 ∷ 16 ∷ []

unfoldable pub unpack_from_slice : List ℕ → Result Mining
unfolding from_fields
unpack_from_slice src =
    if ltb (length src) mining_len
    then panic
    else from_fields (array_refs header_widths src) (take 560 (drop 82 src))
