-- ===== src/Processor/Vault/Calls.antt =====
-- The calls of the token program (src/processor.rs) leave the pools of the ledger alone.
use allwinprotocol.Base.{ℕ, ◌≡◌, ◌≢◌, refl, sym, ◌∙◌, arith, ◌==◌, ==→≡, Bool-cases, inl, inr}
use allwinprotocol.Error.{Result, ok, PoolingError, >>=-eq-ok}
use allwinprotocol.State.Common.{Pubkey}
use allwinprotocol.Processor.Runtime.{
  Ledger, TokenInstruction, transfer, mint_to, burn, program_of, Runtime, CallLaws, IsCall,
}
use allwinprotocol.Processor.Accounts.{
  map_err, unpack_pool, user_transfer, pool_transfer, pool_mint_to, user_burn,
}
use allwinprotocol.Processor.Vault.{pool_at}

pub map_err-eq_ok {ℓ} :
    {A : Type ℓ} (r : Result A) (e : PoolingError) {a : A} → map_err r e ≡ ok a → r ≡ ok a
map_err-eq_ok r e h = ground arith

module _ (rt : Runtime) (program_id : Pubkey) (laws : CallLaws rt)
    (foreign : program_id ≢ rt.spl_token_id) where
  IsCall-pool_at :
      (program : Pubkey) (ledger ledger' : Ledger)
      → program ≡ rt.spl_token_id
      → IsCall program ledger ledger'
      → (k : Pubkey) → pool_at rt program_id ledger' k ≡ pool_at rt program_id ledger k
  unfolding pool_at unpack_pool
  IsCall-pool_at program ledger ledger' token call k =
      elim (Bool-cases ((ledger k).owner == program_id)) [
        | inl own ↦
            let same =
              (call k).1 (λ e. foreign (sym (==→≡ (ledger k).owner program_id own) ∙ e ∙ token)) in
            rw same refl
        | inr other ↦ let same = (call k).0 in rw (same, other) refl
      ]

  built-pool_at :
      (call built : TokenInstruction) (ledger ledger' : Ledger)
      → rt.instruction call ≡ ok built
      → IsCall (program_of built) ledger ledger'
      → (k : Pubkey) → pool_at rt program_id ledger' k ≡ pool_at rt program_id ledger k
  built-pool_at call built ledger ledger' builds ran =
      IsCall-pool_at (program_of built) ledger ledger' (laws.instruction-eq call builds) ran

  pub user_transfer-pool_at :
      (token_program source destination authority : Pubkey) (amount : ℕ) (ledger ledger' : Ledger)
      → user_transfer rt token_program source destination authority amount ledger ≡ ok ledger'
      → (k : Pubkey) → pool_at rt program_id ledger' k ≡ pool_at rt program_id ledger k
  unfolding user_transfer
  user_transfer-pool_at token_program source destination authority amount ledger ledger' h =
      let call = transfer token_program source destination authority amount in
      let (built, builds, runs) = >>=-eq-ok (rt.instruction call) _ h in
      built-pool_at call built ledger ledger' builds
        (laws.invoke-IsCall built ledger ledger' (map_err-eq_ok _ _ runs))

  pub user_burn-pool_at :
      (token_program mint source authority : Pubkey) (amount : ℕ) (ledger ledger' : Ledger)
      → user_burn rt token_program mint source authority amount ledger ≡ ok ledger'
      → (k : Pubkey) → pool_at rt program_id ledger' k ≡ pool_at rt program_id ledger k
  unfolding user_burn
  user_burn-pool_at token_program mint source authority amount ledger ledger' h =
      let call = burn token_program source mint authority amount in
      let (built, builds, runs) = >>=-eq-ok (rt.instruction call) _ h in
      built-pool_at call built ledger ledger' builds
        (laws.invoke-IsCall built ledger ledger' (map_err-eq_ok _ _ runs))

  pub pool_transfer-pool_at :
      (token_program source destination authority : Pubkey) (amount : ℕ) (manager : Pubkey)
      (bump_seed : ℕ) (ledger ledger' : Ledger)
      → pool_transfer rt token_program source destination authority amount manager bump_seed ledger
        ≡ ok ledger'
      → (k : Pubkey) → pool_at rt program_id ledger' k ≡ pool_at rt program_id ledger k
  unfolding pool_transfer
  pool_transfer-pool_at token_program source destination authority amount manager bump_seed ledger
        ledger' h =
      let call = transfer token_program source destination authority amount in
      let (built, builds, runs) = >>=-eq-ok (rt.instruction call) _ h in
      built-pool_at call built ledger ledger' builds
        (laws.invoke_signed-IsCall built manager bump_seed ledger ledger' (map_err-eq_ok _ _ runs))

  pub pool_mint_to-pool_at :
      (token_program mint destination authority : Pubkey) (amount : ℕ) (manager : Pubkey)
      (bump_seed : ℕ) (ledger ledger' : Ledger)
      → pool_mint_to rt token_program mint destination authority amount manager bump_seed ledger
        ≡ ok ledger'
      → (k : Pubkey) → pool_at rt program_id ledger' k ≡ pool_at rt program_id ledger k
  unfolding pool_mint_to
  pool_mint_to-pool_at token_program mint destination authority amount manager bump_seed ledger
        ledger' h =
      let call = mint_to token_program mint destination authority amount in
      let (built, builds, runs) = >>=-eq-ok (rt.instruction call) _ h in
      built-pool_at call built ledger ledger' builds
        (laws.invoke_signed-IsCall built manager bump_seed ledger ledger' (map_err-eq_ok _ _ runs))
