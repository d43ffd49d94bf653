-- ===== src/Processor/Vault/Reachable.antt =====
-- The ledgers that the program of src/processor.rs reaches, however its instructions and those of other
-- programs follow each other.
use allwinprotocol.Base.{
  ℕ, zero, suc, ◌≡◌, ◌≢◌, refl, ap, false, Option, none, List, [], ◌∷◌, arith, ltb, ◌==◌, ==→≡,
  length, take, drop, replicate, Option-cases, Bool-cases, inl, inr,
}
use allwinprotocol.Error.{ok}
use allwinprotocol.State.Common.{Pubkey}
use allwinprotocol.State.Codec.{from_le_bytes, array_refs, unpack_bool}
use allwinprotocol.State.Pool
use allwinprotocol.State.Pool.{Pool}
use allwinprotocol.State.Pool.Pack as PoolPack
use allwinprotocol.Instruction.{PoolingInstruction}
use allwinprotocol.Processor.Runtime.{Ledger, AccountInfo, Runtime, RuntimeLaws, PackLaws, CallLaws}
use allwinprotocol.Processor.Accounts.{unpack_pool}
use allwinprotocol.Processor.Dispatch.{process_instruction}
use allwinprotocol.Processor.Vault.{pool_at, available, funds, IsSound, VaultStep}
use allwinprotocol.Processor.Vault.Storage.{unpack_pool-eq_ok, pool_at-eq_some}
use allwinprotocol.Processor.Vault.Program.{process_instruction-VaultStep}

-- What other programs can do to the accounts of this one: nothing to those it has, and those that they
-- hand over are cleared.
pub record IsOthers (program_id : Pubkey) (ledger ledger' : Ledger) : Type 0 where
  pub kept :
      (key : Pubkey)
      → (ledger key).owner ≡ program_id
      → ((ledger' key).owner ≡ program_id) × ((ledger' key).bytes ≡ (ledger key).bytes)
  pub cleared :
      (key : Pubkey)
      → (ledger key).owner ≢ program_id
      → (ledger' key).owner ≡ program_id
      → (n : ℕ) × ((ledger' key).bytes ≡ replicate n 0)

-- From a ledger in which the program has no accounts, by its own instructions and by other programs
pub data Reachable (rt : Runtime) (program_id : Pubkey) : Ledger → Type 0 where
  deployed :
      {ledger : Ledger}
      → ((key : Pubkey) → (ledger key).owner ≢ program_id)
      → Reachable rt program_id ledger
  instruction :
      {ledger ledger' : Ledger} (accounts : List AccountInfo) (input : List ℕ)
      → Reachable rt program_id ledger
      → process_instruction rt program_id accounts input ledger ≡ ok ledger'
      → Reachable rt program_id ledger'
  others :
      {ledger ledger' : Ledger}
      → Reachable rt program_id ledger
      → IsOthers program_id ledger ledger'
      → Reachable rt program_id ledger'

-- The runs of a vault that starts with no pools, by the steps of any instructions
pub data VaultRun : (Pubkey → Option ℕ) → Type 0 where
  no_pools : {v : Pubkey → Option ℕ} → ((k : Pubkey) → v k ≡ none) → VaultRun v
  step :
      {v w : Pubkey → Option ℕ} (i : PoolingInstruction) → VaultRun v → VaultStep i v w → VaultRun w
  wait : {v w : Pubkey → Option ℕ} → VaultRun v → ((k : Pubkey) → w k ≡ v k) → VaultRun w

take-zeros : (w n : ℕ) → from_le_bytes (take w (replicate n 0)) ≡ 0
unfolding from_le_bytes
take-zeros zero n = refl
take-zeros (suc w) zero = refl
take-zeros (suc w) (suc n) = omega (arith, take-zeros w n)

drop-zeros : (w n : ℕ) → (m : ℕ) × (◌≡◌ {A = List ℕ} (drop w (replicate n 0)) (replicate m 0))
drop-zeros zero n = (n, refl)
drop-zeros (suc w) zero = (0, refl)
drop-zeros (suc w) (suc n) = drop-zeros w n

abbrev zeros : List ℕ → List ℕ
zeros [] = []
zeros (w ∷ ws) = 0 ∷ zeros ws

array_refs-zeros : (ws : List ℕ) (n : ℕ) → array_refs ws (replicate n 0) ≡ zeros ws
unfolding array_refs
array_refs-zeros [] n = refl
array_refs-zeros (w ∷ ws) n =
    let (m, rest) = drop-zeros w n in rw (take-zeros w n, rest, array_refs-zeros ws m) refl

-- A cleared account is read as a pool that is not initialised.
cleared-uninitialized :
    (n : ℕ) (p : Pool)
    → PoolPack.unpack_from_slice (replicate n 0) ≡ ok p
    → Pool.is_initialized p ≡ false
unfolding PoolPack.unpack_from_slice unpack_bool Pool.is_initialized
cleared-uninitialized n p h =
    elim (Bool-cases (ltb (length (replicate {A = ℕ} n 0)) PoolPack.reserve_len)) [
      | inl short ↦ let h0 = rw short at h in cc
      | inr long ↦ let h0 = rw (long, array_refs-zeros PoolPack.field_widths n) at h in ground arith
    ]

module _ (rt : Runtime) (program_id : Pubkey) (packs : PackLaws rt) (ledger ledger' : Ledger)
    (others : IsOthers program_id ledger ledger') where
  -- Other programs leave the pools alone.
  pub others-pool_at :
      (k : Pubkey) → pool_at rt program_id ledger' k ≡ pool_at rt program_id ledger k
  unfolding pool_at unpack_pool
  others-pool_at k = elim (Bool-cases ((ledger k).owner == program_id)) [
    | inl own ↦
        let (owner, bytes) = others.kept k (==→≡ (ledger k).owner program_id own) in
        rw (own, owner, bytes) (ground arith)
    | inr other ↦ elim (Option-cases (pool_at rt program_id ledger' k)) [
      | inl none' ↦ rw other none'
      | inr (p, e) ↦
          let (owned, read) = pool_at-eq_some rt program_id ledger' k p e in
          let (n, bytes) = others.cleared k (ground arith) owned in
          let (_, reads, set) = unpack_pool-eq_ok rt packs ledger' k p read in
          let unset = cleared-uninitialized n p (rw bytes at reads) in cc
    ]
  ]

pub none_owned-pool_at :
    (rt : Runtime) (program_id : Pubkey) (ledger : Ledger) (k : Pubkey)
    → (ledger k).owner ≢ program_id
    → pool_at rt program_id ledger k ≡ none
unfolding pool_at
none_owned-pool_at rt program_id ledger k other = ground arith

-- Let the program not be the token program, and let `Pack`, the calls of the token program and the
-- amounts of its accounts be as documented. Start from a ledger in which the program has no account.
-- However its successful instructions, and the changes by other programs, which keep its accounts
-- and hand over cleared ones, follow each other: every pool has the current version, a share for
-- each token, and nothing lent or claimed, and the tokens of the pools are what a run of steps of
-- `VaultStep` gives that starts with no pools.
pub Reachable-VaultRun :
    {rt : Runtime} {program_id : Pubkey} {ledger : Ledger}
    → RuntimeLaws rt
    → PackLaws rt
    → CallLaws rt
    → program_id ≢ rt.spl_token_id
    → Reachable rt program_id ledger
    → IsSound rt program_id ledger × VaultRun (funds rt program_id ledger)
Reachable-VaultRun {rt} {program_id} {ledger} laws packs calls foreign (deployed none_owned) =
    let free = λ (k : Pubkey). none_owned-pool_at rt program_id ledger k (none_owned k) in
    (λ key p e. let f = free key in cc, no_pools (λ k. ap available (free k)))
Reachable-VaultRun {rt} {program_id} {ledger = ledger'} laws packs calls foreign
      (instruction {ledger} accounts input before runs) =
    let (sound, run) = Reachable-VaultRun laws packs calls foreign before in
    let (sound', _, (i, _, taken)) =
      process_instruction-VaultStep rt program_id laws packs calls foreign accounts input ledger
        ledger' sound runs in
    (sound', step i run taken)
Reachable-VaultRun {rt} {program_id} {ledger = ledger'} laws packs calls foreign
      (others {ledger} before by_others) =
    let (sound, run) = Reachable-VaultRun laws packs calls foreign before in
    let same = others-pool_at rt program_id packs ledger ledger' by_others in
    (λ key p e. sound key p (rw (same key) at e), wait run (λ k. ap available (same k)))
