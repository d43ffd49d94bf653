-- ===== src/Processor/Solvency/Holdings.antt =====
-- What the calls of the token program and the writes of the program itself (src/processor.rs) leave in
-- the token accounts of derived keys.
use allwinprotocol.Base.{ℕ, ◌+◌, ◌-◌, ◌≡◌, ◌≢◌, sym, ◌∙◌, arith, ◌==◌, if◌then◌else◌}
use allwinprotocol.Error.{ok, >>=-eq-ok}
use allwinprotocol.State.Common.{Pubkey}
use allwinprotocol.Processor.Runtime.{Ledger, transfer, mint_to, burn, Runtime, IsCall}
use allwinprotocol.Processor.Accounts.{user_transfer, pool_transfer, pool_mint_to, user_burn}
use allwinprotocol.Processor.Tokens.{
  token_at, taken_from, LosesAtMost, SparesAuthorities, TokenLaws,
}
use allwinprotocol.Processor.Vault.Calls.{map_err-eq_ok}
use allwinprotocol.Processor.Solvency.{Holds}

module _ (rt : Runtime) (program_id : Pubkey) where
  -- The program writes to its own accounts only.
  pub IsCall-Holds :
      (ledger ledger' : Ledger) (key : Pubkey) (n : ℕ)
      → program_id ≢ rt.spl_token_id
      → IsCall program_id ledger ledger'
      → Holds rt program_id ledger key n
      → Holds rt program_id ledger' key n
  unfolding token_at
  IsCall-Holds ledger ledger' key n foreign call h =
      let owned : (ledger key).owner ≡ rt.spl_token_id = let there = h.there in ground arith in
      let same : ledger' key ≡ ledger key = (call key).1 (λ e. foreign (sym e ∙ owned)) in
      record {
        account = h.account;
        there = rw same (h.there);
        authority = h.authority;
        enough = h.enough;
      }

  pub spared-Holds :
      (ledger ledger' : Ledger) (key : Pubkey) (n : ℕ)
      → SparesAuthorities rt program_id ledger ledger'
      → Holds rt program_id ledger key n
      → Holds rt program_id ledger' key n
  spared-Holds ledger ledger' key n spares h =
      let (t', there, owner, more) = spares key h.account h.there h.authority in
      record {
        account = t';
        there = there;
        authority = rw owner (h.authority);
        enough = omega (arith, h.enough);
      }

  lost-Holds :
      (lost : Pubkey → ℕ) (ledger ledger' : Ledger) (key : Pubkey) (n : ℕ)
      → LosesAtMost rt lost ledger ledger'
      → Holds rt program_id ledger key n
      → Holds rt program_id ledger' key (n - lost key)
  lost-Holds lost ledger ledger' key n loses h =
      let (t', there, owner, more) = loses key h.account h.there in
      record {
        account = t';
        there = there;
        authority = rw owner (h.authority);
        enough = omega (arith, h.enough);
      }

  module _ (laws : TokenLaws rt program_id) where
    pub user_transfer-Holds :
        (token_program source destination authority : Pubkey) (amount : ℕ) (ledger ledger' : Ledger)
        → user_transfer rt token_program source destination authority amount ledger ≡ ok ledger'
        → (key : Pubkey) (n : ℕ) → Holds rt program_id ledger key n
        → Holds rt program_id ledger' key n
    unfolding user_transfer
    user_transfer-Holds token_program source destination authority amount ledger ledger' h key n =
        let call = transfer token_program source destination authority amount in
        let (built, builds, runs) = >>=-eq-ok (rt.instruction call) _ h in
        spared-Holds ledger ledger' key n
          (laws.unsigned built ledger ledger' (map_err-eq_ok _ _ runs))

    -- A transfer arrives.
    pub user_transfer-Holds_more :
        (token_program source destination authority : Pubkey) (amount : ℕ) (ledger ledger' : Ledger)
        → destination ≢ source
        → user_transfer rt token_program source destination authority amount ledger ≡ ok ledger'
        → (n : ℕ) → Holds rt program_id ledger destination n
        → Holds rt program_id ledger' destination (n + amount)
    unfolding user_transfer
    user_transfer-Holds_more token_program source destination authority amount ledger ledger' apart
          h n before =
        let call = transfer token_program source destination authority amount in
        let (built, builds, runs) = >>=-eq-ok (rt.instruction call) _ h in
        let same : built ≡ call = laws.builds call builds in
        let ran : rt.invoke call ledger ≡ ok ledger' = rw same at (map_err-eq_ok _ _ runs) in
        let after =
          spared-Holds ledger ledger' destination n (laws.unsigned call ledger ledger' ran)
            before in
        let more =
          laws.arrives token_program source destination authority amount ledger ledger' ran apart
            before.account after.account before.there after.there in
        record {
          account = after.account;
          there = after.there;
          authority = after.authority;
          enough = omega (arith, before.enough);
        }

    pub user_burn-Holds :
        (token_program mint source authority : Pubkey) (amount : ℕ) (ledger ledger' : Ledger)
        → user_burn rt token_program mint source authority amount ledger ≡ ok ledger'
        → (key : Pubkey) (n : ℕ) → Holds rt program_id ledger key n
        → Holds rt program_id ledger' key n
    unfolding user_burn
    user_burn-Holds token_program mint source authority amount ledger ledger' h key n =
        let call = burn token_program source mint authority amount in
        let (built, builds, runs) = >>=-eq-ok (rt.instruction call) _ h in
        spared-Holds ledger ledger' key n
          (laws.unsigned built ledger ledger' (map_err-eq_ok _ _ runs))

    pub pool_mint_to-Holds :
        (token_program mint destination authority : Pubkey) (amount : ℕ) (manager : Pubkey)
        (bump_seed : ℕ) (ledger ledger' : Ledger)
        → pool_mint_to rt token_program mint destination authority amount manager bump_seed ledger
          ≡ ok ledger'
        → (key : Pubkey) (n : ℕ) → Holds rt program_id ledger key n
        → Holds rt program_id ledger' key n
    unfolding pool_mint_to
    pool_mint_to-Holds token_program mint destination authority amount manager bump_seed ledger
          ledger' h key n before =
        let call = mint_to token_program mint destination authority amount in
        let (built, builds, runs) = >>=-eq-ok (rt.instruction call) _ h in
        let same : built ≡ call = laws.builds call builds in
        let loses =
          laws.signed call manager bump_seed ledger ledger' (rw same at (map_err-eq_ok _ _ runs)) in
        let all : n - 0 ≡ n = omega arith in
        let after : Holds rt program_id ledger' key (n - 0) =
          lost-Holds (taken_from call) ledger ledger' key n loses before in
        rw all at after

    -- A payment takes its amount out of its source, and nothing out of other accounts.
    pub pool_transfer-Holds :
        (token_program source destination authority : Pubkey) (amount : ℕ) (manager : Pubkey)
        (bump_seed : ℕ) (ledger ledger' : Ledger)
        → pool_transfer rt token_program source destination authority amount manager bump_seed
            ledger
          ≡ ok ledger'
        → (key : Pubkey) (n : ℕ) → Holds rt program_id ledger key n
        → Holds rt program_id ledger' key (n - (if key == source then amount else 0))
    unfolding pool_transfer
    pool_transfer-Holds token_program source destination authority amount manager bump_seed ledger
          ledger' h key n before =
        let call = transfer token_program source destination authority amount in
        let (built, builds, runs) = >>=-eq-ok (rt.instruction call) _ h in
        let same : built ≡ call = laws.builds call builds in
        let loses =
          laws.signed call manager bump_seed ledger ledger' (rw same at (map_err-eq_ok _ _ runs)) in
        lost-Holds (taken_from call) ledger ledger' key n loses before
