-- ===== src/Processor/Vault/Opening.antt =====
-- A new pool (`process_init_pool` of src/processor.rs) as a step of the vault.
use allwinprotocol.Base.{refl, ℕ, Bool, ◌≡◌, false, none, List, arith, Option-cases, inl, inr}
use allwinprotocol.Error.{ok}
use allwinprotocol.State.Common.{Pubkey}
use allwinprotocol.State.Pool
use allwinprotocol.State.Pool.{Pool, PoolConfig}
use allwinprotocol.State.Pool.Pack as PoolPack
use allwinprotocol.Instruction.{init_pool}
use allwinprotocol.Processor.Runtime.{Ledger, AccountInfo, Runtime, PackLaws}
use allwinprotocol.Processor.Guards.{assert_uninitialized}
use allwinprotocol.Processor.InitPool.{process_init_pool}
use allwinprotocol.Processor.InitPool.Opening.{process_init_pool-IsOpening}
use allwinprotocol.Processor.Vault.{pool_at, IsSound}
use allwinprotocol.Processor.Vault.Storage.{unpack_pool-eq_ok, pool_at-eq_some}
use allwinprotocol.Processor.Vault.Stores.{pack_pool-pool_at}
use allwinprotocol.Processor.Vault.Steps.{IsStep, opens-IsStep}

module _ (rt : Runtime) (program_id : Pubkey) (packs : PackLaws rt) where
  unused_uninitialized :
      (bytes : List ℕ) (old p : Pool)
      → assert_uninitialized rt PoolPack.reserve_len PoolPack.unpack_from_slice Pool.is_initialized
          bytes
        ≡ ok old
      → PoolPack.unpack_from_slice bytes ≡ ok p
      → Pool.is_initialized p ≡ false
  unfolding assert_uninitialized
  unused_uninitialized bytes old p unused reads =
      let law = packs.unpack_unchecked-eq PoolPack.reserve_len PoolPack.unpack_from_slice bytes in
      ground arith

  -- Where no pool is initialised, none is seen.
  unused-free :
      (ledger : Ledger) (key : Pubkey) (old : Pool)
      → assert_uninitialized rt PoolPack.reserve_len PoolPack.unpack_from_slice Pool.is_initialized
          (ledger key).bytes
        ≡ ok old
      → pool_at rt program_id ledger key ≡ none
  unused-free ledger key old unused = elim (Option-cases (pool_at rt program_id ledger key)) [
    | inl e ↦ e
    | inr (p, e) ↦
        let (_, read) = pool_at-eq_some rt program_id ledger key p e in
        let (_, reads, set) = unpack_pool-eq_ok rt packs ledger key p read in
        let unset = unused_uninitialized (ledger key).bytes old p unused reads in cc
  ]

  pub process_init_pool-IsStep :
      (accounts : List AccountInfo) (ledger ledger' : Ledger) (config : PoolConfig) (speed kink : ℕ)
      (use_pyth : Bool)
      → IsSound rt program_id ledger
      → process_init_pool rt program_id accounts ledger config speed kink use_pyth ≡ ok ledger'
      → IsStep rt program_id (init_pool config speed kink use_pyth) ledger ledger'
  process_init_pool-IsStep accounts ledger ledger' config speed kink use_pyth sound h =
      let o =
        process_init_pool-IsOpening rt program_id accounts ledger ledger' config speed kink use_pyth
          h in
      let (q, sound_q, same, _, stored) =
        pack_pool-pool_at rt program_id packs o.pool o.reserve.key ledger ledger' o.reserve_owned
          o.opened.version o.opened.backed o.stored in
      opens-IsStep rt program_id (init_pool config speed kink use_pyth) ledger ledger' sound
        o.reserve.key q sound_q stored config speed kink use_pyth refl
        (unused-free ledger o.reserve.key o.old o.unused) (rw same o.opened.empty)
