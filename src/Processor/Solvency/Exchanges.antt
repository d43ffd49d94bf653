-- ===== src/Processor/Solvency/Exchanges.antt =====
-- Deposits and redemptions (src/processor.rs), and the tokens and shares behind the pools of the ledger.
use allwinprotocol.Base.{ℕ, ◌+◌, ◌-◌, ◌≡◌, ◌≢◌, arith, true, false, List, ◌==◌}
use allwinprotocol.Error.{ok}
use allwinprotocol.State.Common.{Pubkey}
use allwinprotocol.State.Pool.{Pool}
use allwinprotocol.State.Pool.Repack.{keys}
use allwinprotocol.Processor.Runtime.{Ledger, AccountInfo, Runtime, RuntimeLaws, PackLaws, CallLaws}
use allwinprotocol.Processor.Deposit.{process_deposit_pool_liquidity}
use allwinprotocol.Processor.Redeem.{process_redeem_pool_collateral}
use allwinprotocol.Processor.Vault.{IsSound}
use allwinprotocol.Processor.Vault.Exchanges.{
  deposit-stored, redemption-stored, runs-IsDeposit, runs-IsRedemption,
}
use allwinprotocol.Processor.Tokens.{TokenLaws}
use allwinprotocol.Processor.Solvency.{Holds, Issued, supply_of, mint_of, IsSolvent}
use allwinprotocol.Processor.Solvency.Places.{exchange-IsKept}
use allwinprotocol.Processor.Solvency.Effects.{
  deposit-Holds, deposit-Holds_more, redemption-Holds, deposit-Issued, redemption-Issued,
  redemption-Issued_less,
}

==-refl : (n : ℕ) → (n == n) ≡ true
==-refl n = ground arith

≢→== : (a b : ℕ) → a ≢ b → (a == b) ≡ false
≢→== a b h = ground arith

pub keys-supply : (p q : Pool) → keys q ≡ keys p → supply_of q ≡ supply_of p
keys-supply p q h = cc

pub keys-mint : (p q : Pool) → keys q ≡ keys p → mint_of q ≡ mint_of p
keys-mint p q h = cc

module _ (rt : Runtime) (program_id : Pubkey) (laws : RuntimeLaws rt) (packs : PackLaws rt)
    (calls : CallLaws rt) (foreign : program_id ≢ rt.spl_token_id)
    (tokens : TokenLaws rt program_id) where
  pub process_deposit-IsSolvent :
      (amount : ℕ) (accounts : List AccountInfo) (ledger ledger' : Ledger)
      → IsSolvent rt program_id ledger
      → IsSound rt program_id ledger'
      → process_deposit_pool_liquidity rt program_id amount accounts ledger ≡ ok ledger'
      → IsSolvent rt program_id ledger'
  process_deposit-IsSolvent asked accounts ledger ledger' solvent sound' h =
      let (a, slot, p, before, sound_p, d) =
        runs-IsDeposit rt program_id laws packs calls foreign asked accounts ledger ledger'
          solvent.sound h in
      let (q, sound_q, same, keyed, stored) =
        deposit-stored rt program_id laws packs calls foreign a slot asked ledger ledger' p sound_p
          d in
      let funds = p.liquidity.available_amount in
      let held =
        deposit-Holds_more rt program_id foreign tokens a slot asked ledger ledger' p d funds
          (solvent.tokens.suits a.reserve p before) in
      let issued : Issued rt program_id ledger' (mint_of p) (funds + d.amount) =
        rw (==-refl (mint_of p)) at (
          deposit-Issued rt program_id foreign tokens a slot asked ledger ledger' p d (mint_of p)
            funds (solvent.shares.suits a.reserve p before)) in
      record {
        sound = sound';
        tokens =
            exchange-IsKept rt program_id supply_of keys-supply (Holds rt program_id) ledger ledger'
              solvent.tokens a.reserve p q before keyed stored (rw same held)
              (λ k r e _.
                deposit-Holds rt program_id foreign tokens a slot asked ledger ledger' p d
                  (supply_of r) r.liquidity.available_amount (solvent.tokens.suits k r e));
        shares =
            exchange-IsKept rt program_id mint_of keys-mint (Issued rt program_id) ledger ledger'
              solvent.shares a.reserve p q before keyed stored (rw same issued)
              (λ k r e apart.
                let n = r.liquidity.available_amount in
                let all : n + 0 ≡ n = omega arith in
                rw (≢→== (mint_of r) (mint_of p) apart, all) at
                  (deposit-Issued rt program_id foreign tokens a slot asked ledger ledger' p d
                    (mint_of r) n (solvent.shares.suits k r e)));
      }

  pub process_redeem-IsSolvent :
      (amount : ℕ) (accounts : List AccountInfo) (ledger ledger' : Ledger)
      → IsSolvent rt program_id ledger
      → IsSound rt program_id ledger'
      → process_redeem_pool_collateral rt program_id amount accounts ledger ≡ ok ledger'
      → IsSolvent rt program_id ledger'
  process_redeem-IsSolvent asked accounts ledger ledger' solvent sound' h =
      let (a, slot, p, before, sound_p, d) =
        runs-IsRedemption rt program_id laws packs calls foreign asked accounts ledger ledger'
          solvent.sound h in
      let (q, sound_q, same, keyed, stored) =
        redemption-stored rt program_id laws packs calls foreign a slot asked ledger ledger' p
          sound_p d in
      let funds = p.liquidity.available_amount in
      let held : Holds rt program_id ledger' (supply_of p) (funds - d.amount) =
        rw (==-refl (supply_of p)) at (
          redemption-Holds rt program_id foreign tokens a slot asked ledger ledger' p d
            (supply_of p) funds (solvent.tokens.suits a.reserve p before)) in
      let issued =
        redemption-Issued_less rt program_id foreign tokens a slot asked ledger ledger' p d funds
          (solvent.shares.suits a.reserve p before) in
      record {
        sound = sound';
        tokens =
            exchange-IsKept rt program_id supply_of keys-supply (Holds rt program_id) ledger ledger'
              solvent.tokens a.reserve p q before keyed stored (rw same held)
              (λ k r e apart.
                let n = r.liquidity.available_amount in
                let all : n - 0 ≡ n = omega arith in
                rw (≢→== (supply_of r) (supply_of p) apart, all) at
                  (redemption-Holds rt program_id foreign tokens a slot asked ledger ledger' p d
                    (supply_of r) n (solvent.tokens.suits k r e)));
        shares =
            exchange-IsKept rt program_id mint_of keys-mint (Issued rt program_id) ledger ledger'
              solvent.shares a.reserve p q before keyed stored (rw same issued)
              (λ k r e _.
                redemption-Issued rt program_id foreign tokens a slot asked ledger ledger' p d
                  (mint_of r) r.liquidity.available_amount (solvent.shares.suits k r e));
      }
