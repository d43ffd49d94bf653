-- ===== src/Processor/Solvency/Shares.antt =====
-- What the calls of the token program and the writes of the program itself (src/processor.rs) do to the
-- mints of derived keys.
use allwinprotocol.Base.{ℕ, ◌+◌, ◌-◌, ◌≡◌, ◌≢◌, sym, ◌∙◌, arith, ◌==◌, if◌then◌else◌}
use allwinprotocol.Error.{ok, >>=-eq-ok}
use allwinprotocol.State.Common.{Pubkey}
use allwinprotocol.Processor.Runtime.{Ledger, transfer, mint_to, burn, Runtime, IsCall}
use allwinprotocol.Processor.Accounts.{user_transfer, pool_transfer, pool_mint_to, user_burn}
use allwinprotocol.Processor.Tokens.{mint_at, minted_by, MintsAtMost, MintsNothing, TokenLaws}
use allwinprotocol.Processor.Vault.Calls.{map_err-eq_ok}
use allwinprotocol.Processor.Solvency.{Issued}

module _ (rt : Runtime) (program_id : Pubkey) where
  -- The program writes to its own accounts only.
  pub IsCall-Issued :
      (ledger ledger' : Ledger) (key : Pubkey) (n : ℕ)
      → program_id ≢ rt.spl_token_id
      → IsCall program_id ledger ledger'
      → Issued rt program_id ledger key n
      → Issued rt program_id ledger' key n
  unfolding mint_at
  IsCall-Issued ledger ledger' key n foreign call h =
      let owned : (ledger key).owner ≡ rt.spl_token_id = let there = h.there in ground arith in
      let same : ledger' key ≡ ledger key = (call key).1 (λ e. foreign (sym e ∙ owned)) in
      record { mint = h.mint; there = rw same (h.there); authority = h.authority; few = h.few }

  pub unminted-Issued :
      (ledger ledger' : Ledger) (key : Pubkey) (n : ℕ)
      → MintsNothing rt program_id ledger ledger'
      → Issued rt program_id ledger key n
      → Issued rt program_id ledger' key n
  unminted-Issued ledger ledger' key n nothing h =
      let (m', there, authority, less) = nothing key h.mint h.there h.authority in
      record {
        mint = m';
        there = there;
        authority = rw authority (h.authority);
        few = omega (arith, h.few);
      }

  gained-Issued :
      (gained : Pubkey → ℕ) (ledger ledger' : Ledger) (key : Pubkey) (n : ℕ)
      → MintsAtMost rt gained ledger ledger'
      → Issued rt program_id ledger key n
      → Issued rt program_id ledger' key (n + gained key)
  gained-Issued gained ledger ledger' key n mints h =
      let (m', there, authority, less) = mints key h.mint h.there in
      record {
        mint = m';
        there = there;
        authority = rw authority (h.authority);
        few = omega (arith, h.few);
      }

  module _ (laws : TokenLaws rt program_id) where
    pub user_transfer-Issued :
        (token_program source destination authority : Pubkey) (amount : ℕ) (ledger ledger' : Ledger)
        → user_transfer rt token_program source destination authority amount ledger ≡ ok ledger'
        → (key : Pubkey) (n : ℕ) → Issued rt program_id ledger key n
        → Issued rt program_id ledger' key n
    unfolding user_transfer
    user_transfer-Issued token_program source destination authority amount ledger ledger' h key n =
        let call = transfer token_program source destination authority amount in
        let (built, builds, runs) = >>=-eq-ok (rt.instruction call) _ h in
        unminted-Issued ledger ledger' key n
          (laws.mints_nothing built ledger ledger' (map_err-eq_ok _ _ runs))

    pub user_burn-Issued :
        (token_program mint source authority : Pubkey) (amount : ℕ) (ledger ledger' : Ledger)
        → user_burn rt token_program mint source authority amount ledger ≡ ok ledger'
        → (key : Pubkey) (n : ℕ) → Issued rt program_id ledger key n
        → Issued rt program_id ledger' key n
    unfolding user_burn
    user_burn-Issued token_program mint source authority amount ledger ledger' h key n =
        let call = burn token_program source mint authority amount in
        let (built, builds, runs) = >>=-eq-ok (rt.instruction call) _ h in
        unminted-Issued ledger ledger' key n
          (laws.mints_nothing built ledger ledger' (map_err-eq_ok _ _ runs))

    -- What is burnt goes off the supply.
    pub user_burn-Issued_less :
        (token_program mint source authority : Pubkey) (amount : ℕ) (ledger ledger' : Ledger)
        → user_burn rt token_program mint source authority amount ledger ≡ ok ledger'
        → (n : ℕ) → Issued rt program_id ledger mint n
        → Issued rt program_id ledger' mint (n - amount)
    unfolding user_burn
    user_burn-Issued_less token_program mint source authority amount ledger ledger' h n before =
        let call = burn token_program source mint authority amount in
        let (built, builds, runs) = >>=-eq-ok (rt.instruction call) _ h in
        let same : built ≡ call = laws.builds call builds in
        let ran : rt.invoke call ledger ≡ ok ledger' = rw same at (map_err-eq_ok _ _ runs) in
        let after =
          unminted-Issued ledger ledger' mint n (laws.mints_nothing call ledger ledger' ran)
            before in
        let less =
          laws.burns token_program source mint authority amount ledger ledger' ran before.mint
            after.mint before.there after.there in
        record {
          mint = after.mint;
          there = after.there;
          authority = after.authority;
          few = omega (arith, before.few);
        }

    -- Minting adds its amount to the supply of its mint, and nothing to others.
    pub pool_mint_to-Issued :
        (token_program mint destination authority : Pubkey) (amount : ℕ) (manager : Pubkey)
        (bump_seed : ℕ) (ledger ledger' : Ledger)
        → pool_mint_to rt token_program mint destination authority amount manager bump_seed ledger
          ≡ ok ledger'
        → (key : Pubkey) (n : ℕ) → Issued rt program_id ledger key n
        → Issued rt program_id ledger' key (n + (if key == mint then amount else 0))
    unfolding pool_mint_to
    pool_mint_to-Issued token_program mint destination authority amount manager bump_seed ledger
          ledger' h key n before =
        let call = mint_to token_program mint destination authority amount in
        let (built, builds, runs) = >>=-eq-ok (rt.instruction call) _ h in
        let same : built ≡ call = laws.builds call builds in
        let mints =
          laws.mints call manager bump_seed ledger ledger' (rw same at (map_err-eq_ok _ _ runs)) in
        gained-Issued (minted_by call) ledger ledger' key n mints before

    pub pool_transfer-Issued :
        (token_program source destination authority : Pubkey) (amount : ℕ) (manager : Pubkey)
        (bump_seed : ℕ) (ledger ledger' : Ledger)
        → pool_transfer rt token_program source destination authority amount manager bump_seed
            ledger
          ≡ ok ledger'
        → (key : Pubkey) (n : ℕ) → Issued rt program_id ledger key n
        → Issued rt program_id ledger' key n
    unfolding pool_transfer
    pool_transfer-Issued token_program source destination authority amount manager bump_seed ledger
          ledger' h key n before =
        let call = transfer token_program source destination authority amount in
        let (built, builds, runs) = >>=-eq-ok (rt.instruction call) _ h in
        let same : built ≡ call = laws.builds call builds in
        let mints =
          laws.mints call manager bump_seed ledger ledger' (rw same at (map_err-eq_ok _ _ runs)) in
        let all : n + 0 ≡ n = omega arith in
        let after : Issued rt program_id ledger' key (n + 0) =
          gained-Issued (minted_by call) ledger ledger' key n mints before in
        rw all at after
