-- ===== src/Processor/Vault/Storage.antt =====
-- What storing a pool, a ticket or a pool manager does to the pools of the ledger (src/processor.rs).
use allwinprotocol.Base.{
  ℕ, ◌≡◌, refl, true, Option, some, List, arith, ◌==◌, ==→≡, if◌then◌else◌, length, Bool-cases, inl,
  inr,
}
use allwinprotocol.Error.{Result, ok}
use allwinprotocol.State.Common.{Pubkey, program_version}
use allwinprotocol.State.Pool
use allwinprotocol.State.Pool.{Pool}
use allwinprotocol.State.Pool.Pack as PoolPack
use allwinprotocol.Processor.Runtime.{Ledger, Runtime, PackLaws}
use allwinprotocol.Processor.Accounts.{unpack_pool, write_bytes}
use allwinprotocol.Processor.Vault.{pool_at}

module _ (rt : Runtime) (laws : PackLaws rt) where
  -- A pool that is read stands in bytes of the pool's length, which `unpack_from_slice` reads.
  pub unpack_pool-eq_ok :
      (ledger : Ledger) (key : Pubkey) (p : Pool)
      → unpack_pool rt ledger key ≡ ok p
      → (length (ledger key).bytes ≡ PoolPack.reserve_len)
        × (PoolPack.unpack_from_slice (ledger key).bytes ≡ ok p)
        × (Pool.is_initialized p ≡ true)
  unfolding unpack_pool
  unpack_pool-eq_ok ledger key p h =
      let law =
        laws.unpack-eq PoolPack.reserve_len PoolPack.unpack_from_slice Pool.is_initialized
          (ledger key).bytes in
      ground arith

  pub unpack_pool-ok :
      (ledger : Ledger) (key : Pubkey) (p : Pool)
      → length (ledger key).bytes ≡ PoolPack.reserve_len
      → PoolPack.unpack_from_slice (ledger key).bytes ≡ ok p
      → p.version ≡ program_version
      → unpack_pool rt ledger key ≡ ok p
  unfolding unpack_pool Pool.is_initialized
  unpack_pool-ok ledger key p size read v =
      let law =
        laws.unpack-eq PoolPack.reserve_len PoolPack.unpack_from_slice Pool.is_initialized
          (ledger key).bytes in
      ground arith

  pub pack-eq_ok :
      (len : ℕ) (pack_into_slice : List ℕ → Result (List ℕ)) (dst : List ℕ) {bytes : List ℕ}
      → rt.pack len pack_into_slice dst ≡ ok bytes
      → (length dst ≡ len) × (pack_into_slice dst ≡ ok bytes)
  pack-eq_ok len pack_into_slice dst h =
      let law = laws.pack-eq len pack_into_slice dst in ground arith

module _ (rt : Runtime) (program_id : Pubkey) where
  pool_at-eq :
      (ledger ledger' : Ledger) (key : Pubkey)
      → ledger' key ≡ ledger key
      → pool_at rt program_id ledger' key ≡ pool_at rt program_id ledger key
  unfolding pool_at unpack_pool
  pool_at-eq ledger ledger' key h = rw h refl

  pub pool_at-eq_some :
      (ledger : Ledger) (key : Pubkey) (p : Pool)
      → pool_at rt program_id ledger key ≡ some p
      → ((ledger key).owner ≡ program_id) × (unpack_pool rt ledger key ≡ ok p)
  unfolding pool_at
  pool_at-eq_some ledger key p h = ground arith

  pub pool_at-some :
      (ledger : Ledger) (key : Pubkey) (p : Pool)
      → (ledger key).owner ≡ program_id
      → unpack_pool rt ledger key ≡ ok p
      → pool_at rt program_id ledger key ≡ some p
  unfolding pool_at
  pool_at-some ledger key p owned read = ground arith

  pub write_bytes-pool_at :
      (ledger : Ledger) (key : Pubkey) (bytes : List ℕ) (o : Option Pool)
      → pool_at rt program_id (write_bytes ledger key bytes) key ≡ o
      → (k : Pubkey)
      → pool_at rt program_id (write_bytes ledger key bytes) k
        ≡ (if k == key then o else pool_at rt program_id ledger k)
  unfolding write_bytes
  write_bytes-pool_at ledger key bytes o h k = elim (Bool-cases (k == key)) [
    | inl here ↦ rw here (rw (==→≡ k key here) h)
    | inr other ↦ rw other (pool_at-eq ledger (write_bytes ledger key bytes) k (rw other refl))
  ]
