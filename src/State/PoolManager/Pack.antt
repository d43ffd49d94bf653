-- ===== src/State/PoolManager/Pack.antt =====
-- The 354 bytes of a pool manager's account (src/state/pool_manager.rs).
use allwinprotocol.Base.{
  ℕ, ◌≤◌, ◌≡◌, List, [], ◌∷◌, ◌++◌, arith, ltb, if◌then◌else◌, drop, length, Fits, length-append,
  length-drop,
}
use allwinprotocol.Error.{Result, ok, err, panic, invalid_account_data}
use allwinprotocol.State.Common.{program_version}
use allwinprotocol.State.Codec.{array_refs, write_fields}
use allwinprotocol.State.Codec.RoundTrip.{array_refs-write_fields, length-write_fields}
use allwinprotocol.State.PoolManager.{PoolManager}

abbrev pub pool_manager_len : ℕ
pool_manager_len = 354

abbrev pub fields : PoolManager → List (ℕ × ℕ)
fields m =
    (1, m.version)
    ∷ (1, m.bump_seed)
    ∷ (32, m.pending_owner)
    ∷ (32, m.owner)
    ∷ (32, m.quote_currency)
    ∷ (32, m.token_program_id)
    ∷ (32, m.oracle_program_id)
    ∷ (32, m.mine_mint)
    ∷ (32, m.mine_supply_account)
    ∷ []

-- The last 128 bytes are padding, and are left as they are.
unfoldable pub pack_into_slice : PoolManager → List ℕ → Result (List ℕ)
pack_into_slice m output =
    if ltb (length output) pool_manager_len
    then panic
    else ok (write_fields (fields m) ++ drop 226 output)

unfoldable pub from_fields : List ℕ → Result PoolManager
from_fields
      (version ∷ bump_seed ∷ pending_owner ∷ owner ∷ quote_currency ∷ token_program_id
        ∷ oracle_program_id ∷ mine_mint ∷ mine_supply_account ∷ []) =
    if ltb program_version version
    then err invalid_account_data
    else ok (record {
      version = version;
      bump_seed = bump_seed;
      pending_owner = pending_owner;
      owner = owner;
      quote_currency = quote_currency;
      token_program_id = token_program_id;
      oracle_program_id = oracle_program_id;
      mine_mint = mine_mint;
      mine_supply_account = mine_supply_account;
    })
from_fields _ = panic

unfoldable pub unpack_from_slice : List ℕ → Result PoolManager
unfolding from_fields
unpack_from_slice input =
    if ltb (length input) pool_manager_len
    then panic
    else from_fields (array_refs (1 ∷ 1 ∷ 32 ∷ 32 ∷ 32 ∷ 32 ∷ 32 ∷ 32 ∷ 32 ∷ []) input)

-- Every field fits its bytes, and the version is one that this program reads.
pub record InRange (m : PoolManager) : Type 0 where
  pub version : m.version ≤ program_version
  pub bump_seed : Fits 8 m.bump_seed
  pub pending_owner : Fits 256 m.pending_owner
  pub owner : Fits 256 m.owner
  pub quote_currency : Fits 256 m.quote_currency
  pub token_program_id : Fits 256 m.token_program_id
  pub oracle_program_id : Fits 256 m.oracle_program_id
  pub mine_mint : Fits 256 m.mine_mint
  pub mine_supply_account : Fits 256 m.mine_supply_account

-- A pool manager whose fields fit their bytes, and whose version this program reads, is packed into
-- an account of its size and read back unchanged, and the packed account keeps its size.
pub unpack-pack_pool_manager :
    (m : PoolManager) (output : List ℕ)
    → InRange m
    → length output ≡ pool_manager_len
    → (bytes : List ℕ) × (pack_into_slice m output ≡ ok bytes)
      × (length bytes ≡ pool_manager_len)
      × (unpack_from_slice bytes ≡ ok m)
unfolding pack_into_slice unpack_from_slice
unpack-pack_pool_manager m output r size = (
  write_fields (fields m) ++ drop 226 output,
  rw size,
  packed_size,
  rw (packed_size, array_refs-write_fields (fields m) (drop 226 output) (omega arith))
      (ground arith),
)
  where
    packed_size : length (write_fields (fields m) ++ drop 226 output) ≡ pool_manager_len
    packed_size = omega (
      arith,
      length-append (write_fields (fields m)) (drop 226 output),
      length-write_fields (fields m),
      length-drop 226 output,
    )
