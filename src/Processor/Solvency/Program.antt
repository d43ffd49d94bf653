-- ===== src/Processor/Solvency/Program.antt =====
-- The whole program (`process_instruction` of src/processor.rs), and the ledgers that it and the other
-- programs reach, with what stands behind the pools.
use allwinprotocol.State.Pool.{Pool}
use allwinprotocol.Processor.Solvency.Places.{other-IsKept}
use allwinprotocol.Processor.Solvency.Shares.{IsCall-Issued, unminted-Issued}
use allwinprotocol.Base.{ℕ, none, ◌≡◌, ◌≢◌, List, inl, inr}
use allwinprotocol.Error.{ok, >>=-eq-ok}
use allwinprotocol.State.Common.{Pubkey}
use allwinprotocol.Instruction
use allwinprotocol.Instruction.{PoolingInstruction}
use allwinprotocol.Processor.Runtime.{Ledger, AccountInfo, Runtime, RuntimeLaws, PackLaws, CallLaws}
use allwinprotocol.Processor.Dispatch.{dispatch, process_instruction}
use allwinprotocol.Processor.Vault.Program.{dispatch-IsStep}
use allwinprotocol.Processor.Tokens.{TokenLaws, SparesAuthorities, MintsNothing}
use allwinprotocol.Processor.Solvency.{
  Holds, Issued, supply_of, mint_of, IsKept, IsSolvent, IsWellOpened,
}
use allwinprotocol.Processor.Vault.{pool_at}
use allwinprotocol.Processor.Solvency.Holdings.{spared-Holds, IsCall-Holds}
use allwinprotocol.Processor.Solvency.Others.{exchange-cases, dispatch-IsCall}
use allwinprotocol.Processor.Solvency.Exchanges.{
  keys-supply, keys-mint, process_deposit-IsSolvent, process_redeem-IsSolvent,
}
use allwinprotocol.Processor.Vault.Reachable.{IsOthers, others-pool_at, none_owned-pool_at}

module _ (rt : Runtime) (program_id : Pubkey) (laws : RuntimeLaws rt) (packs : PackLaws rt)
    (calls : CallLaws rt) (tokens : TokenLaws rt program_id)
    (foreign : program_id ≢ rt.spl_token_id) where
  dispatch-IsSolvent :
      (accounts : List AccountInfo) (i : PoolingInstruction) (ledger ledger' : Ledger)
      → IsSolvent rt program_id ledger
      → IsWellOpened rt program_id ledger ledger'
      → dispatch rt program_id accounts i ledger ≡ ok ledger'
      → IsSolvent rt program_id ledger'
  unfolding dispatch
  dispatch-IsSolvent accounts i ledger ledger' solvent well_opened h =
      let (sound', keeps, taken) =
        dispatch-IsStep rt program_id laws packs calls foreign accounts i ledger ledger'
          solvent.sound h in
      elim (exchange-cases i) [
        | inl other ↦
            let call = dispatch-IsCall rt program_id accounts i ledger ledger' other h in
            record {
              sound = sound';
              tokens =
                  other-IsKept rt program_id supply_of keys-supply (Holds rt program_id) ledger
                    ledger' solvent.tokens i other keeps taken
                    (λ key n. IsCall-Holds rt program_id ledger ledger' key n foreign call)
                    well_opened.supply;
              shares =
                  other-IsKept rt program_id mint_of keys-mint (Issued rt program_id) ledger ledger'
                    solvent.shares i other keeps taken
                    (λ key n. IsCall-Issued rt program_id ledger ledger' key n foreign call)
                    well_opened.mint;
            }
        | inr (inl (n, deposits)) ↦
            process_deposit-IsSolvent rt program_id laws packs calls foreign tokens n accounts
              ledger ledger' solvent sound' (rw deposits at h)
        | inr (inr (n, redeems)) ↦
            process_redeem-IsSolvent rt program_id laws packs calls foreign tokens n accounts ledger
              ledger' solvent sound' (rw redeems at h)
      ]

  -- One instruction
  process_instruction-IsSolvent :
      (accounts : List AccountInfo) (input : List ℕ) (ledger ledger' : Ledger)
      → IsSolvent rt program_id ledger
      → IsWellOpened rt program_id ledger ledger'
      → process_instruction rt program_id accounts input ledger ≡ ok ledger'
      → IsSolvent rt program_id ledger'
  unfolding process_instruction
  process_instruction-IsSolvent accounts input ledger ledger' solvent well_opened h =
      let (i, _, runs) = >>=-eq-ok (Instruction.unpack input) _ h in
      dispatch-IsSolvent accounts i ledger ledger' solvent well_opened runs

none-IsKept :
    (rt : Runtime) (program_id : Pubkey) (place : Pool → Pubkey)
    (Suits : Ledger → Pubkey → ℕ → Type 0) (ledger : Ledger)
    → ((k : Pubkey) → pool_at rt program_id ledger k ≡ none)
    → IsKept rt program_id place Suits ledger
none-IsKept rt program_id place Suits ledger free = record {
  separate = λ k1 k2 p1 p2 e1 e2 same. let f = free k1 in cc;
  suits = λ k p e. absurd (let f = free k in cc);
}

same-IsKept :
    (rt : Runtime) (program_id : Pubkey) (place : Pool → Pubkey)
    (Suits : Ledger → Pubkey → ℕ → Type 0) (ledger ledger' : Ledger)
    → ((k : Pubkey) → pool_at rt program_id ledger' k ≡ pool_at rt program_id ledger k)
    → ((key : Pubkey) (n : ℕ) → Suits ledger key n → Suits ledger' key n)
    → IsKept rt program_id place Suits ledger
    → IsKept rt program_id place Suits ledger'
same-IsKept rt program_id place Suits ledger ledger' same stays kept = record {
  separate =
      λ k1 k2 p1 p2 e1 e2. kept.separate k1 k2 p1 p2 (rw (same k1) at e1) (rw (same k2) at e2);
  suits = λ k p e. stays (place p) p.liquidity.available_amount (kept.suits k p (rw (same k) at e));
}

-- From a ledger in which the program has no accounts, by its own instructions, which open pools with
-- supply accounts and mints of their own, and by other programs, which take nothing out of these and
-- mint nothing
pub data Operated (rt : Runtime) (program_id : Pubkey) : Ledger → Type 0 where
  deployed :
      {ledger : Ledger}
      → ((key : Pubkey) → (ledger key).owner ≢ program_id)
      → Operated rt program_id ledger
  instruction :
      {ledger ledger' : Ledger} (accounts : List AccountInfo) (input : List ℕ)
      → Operated rt program_id ledger
      → IsWellOpened rt program_id ledger ledger'
      → process_instruction rt program_id accounts input ledger ≡ ok ledger'
      → Operated rt program_id ledger'
  others :
      {ledger ledger' : Ledger}
      → Operated rt program_id ledger
      → IsOthers program_id ledger ledger'
      → SparesAuthorities rt program_id ledger ledger'
      → MintsNothing rt program_id ledger ledger'
      → Operated rt program_id ledger'

-- Let the program not be the token program, and let `Pack`, the amounts of token accounts and the
-- token program be as documented: a builder builds what it is asked for; an instruction takes its
-- amount out of its source at most, and mints at most its amount; a plain call takes nothing out of
-- the accounts of keys that the program derives, and mints nothing of their mints; a transfer
-- between two accounts arrives, and burning lowers the supply. Start from a ledger in which the
-- program has no account. Let its successful instructions and the changes by other programs follow
-- each other in any way in which each new pool has a supply account and a mint of derived keys that
-- are no other pool's, the mint without tokens, and the other programs keep the program's accounts,
-- hand over cleared ones, take nothing out of the accounts of derived keys, and mint nothing of
-- their mints. Then no two pools share a supply account or a mint; every pool has the current
-- version, a share for each token, and nothing lent or claimed; its supply account holds at least
-- the tokens that the pool counts as available; and there are at most as many shares of its mint.
pub Operated-IsSolvent :
    {rt : Runtime} {program_id : Pubkey} {ledger : Ledger}
    → RuntimeLaws rt
    → PackLaws rt
    → CallLaws rt
    → TokenLaws rt program_id
    → program_id ≢ rt.spl_token_id
    → Operated rt program_id ledger
    → IsSolvent rt program_id ledger
Operated-IsSolvent {rt} {program_id} {ledger} laws packs calls tokens foreign
      (deployed none_owned) =
    let free = λ (k : Pubkey). none_owned-pool_at rt program_id ledger k (none_owned k) in
    record {
      sound = λ k p e. let f = free k in cc;
      tokens = none-IsKept rt program_id supply_of (Holds rt program_id) ledger free;
      shares = none-IsKept rt program_id mint_of (Issued rt program_id) ledger free;
    }
Operated-IsSolvent {rt} {program_id} {ledger = ledger'} laws packs calls tokens foreign
      (instruction {ledger} accounts input before well_opened runs) =
    process_instruction-IsSolvent rt program_id laws packs calls tokens foreign accounts input
      ledger ledger' (Operated-IsSolvent laws packs calls tokens foreign before) well_opened runs
Operated-IsSolvent {rt} {program_id} {ledger = ledger'} laws packs calls tokens foreign
      (others {ledger} before by_others spares mints_nothing) =
    let solvent = Operated-IsSolvent laws packs calls tokens foreign before in
    let same = others-pool_at rt program_id packs ledger ledger' by_others in
    record {
      sound = λ k p e. solvent.sound k p (rw (same k) at e);
      tokens =
          same-IsKept rt program_id supply_of (Holds rt program_id) ledger ledger' same
            (λ key n. spared-Holds rt program_id ledger ledger' key n spares) solvent.tokens;
      shares =
          same-IsKept rt program_id mint_of (Issued rt program_id) ledger ledger' same
            (λ key n. unminted-Issued rt program_id ledger ledger' key n mints_nothing)
            solvent.shares;
    }
