-- ===== src/Processor/Solvency/Effects.antt =====
-- What the writes of a deposit and of a redemption (src/processor.rs) leave in the supply accounts and the
-- mints of the pools.
use allwinprotocol.Base.{ℕ, ◌+◌, ◌-◌, ◌≢◌, ◌==◌, if◌then◌else◌}
use allwinprotocol.State.Common.{Pubkey, Slot}
use allwinprotocol.State.Pool.{Pool}
use allwinprotocol.Processor.Runtime.{Ledger, Runtime}
use allwinprotocol.Processor.Exchange.{ExchangeAccounts}
use allwinprotocol.Processor.Deposit.{IsDeposit}
use allwinprotocol.Processor.Redeem.{IsRedemption}
use allwinprotocol.Processor.Tokens.{TokenLaws}
use allwinprotocol.Processor.Solvency.{Holds, Issued, mint_of}
use allwinprotocol.Processor.Solvency.Shares.{
  IsCall-Issued, user_transfer-Issued, user_burn-Issued, user_burn-Issued_less, pool_mint_to-Issued,
  pool_transfer-Issued,
}
use allwinprotocol.Processor.Solvency.Holdings.{
  IsCall-Holds, user_transfer-Holds, user_transfer-Holds_more, user_burn-Holds, pool_mint_to-Holds,
  pool_transfer-Holds,
}
use allwinprotocol.Processor.Solvency.Writes.{pack_pool-IsCall}

module _ (rt : Runtime) (program_id : Pubkey) (foreign : program_id ≢ rt.spl_token_id)
    (tokens : TokenLaws rt program_id) where
  -- What the three writes of a deposit leave under a key
  pub deposit-Holds :
      (a : ExchangeAccounts) (slot : Slot) (asked : ℕ) (ledger ledger' : Ledger) (p : Pool)
      → IsDeposit rt program_id a slot asked ledger ledger' p
      → (key : Pubkey) (n : ℕ) → Holds rt program_id ledger key n
      → Holds rt program_id ledger' key n
  deposit-Holds a slot asked ledger ledger' p d key n before =
      let packed =
        IsCall-Holds rt program_id ledger d.packed key n foreign
          (pack_pool-IsCall rt program_id a.reserve ledger d.packed d.authorised.reserve_owned _
            d.stored)
          before in
      let paid =
        user_transfer-Holds rt program_id tokens a.token_program a.source a.liquidity_supply
          a.user_authority d.amount d.packed d.paid d.taken key n packed in
      pool_mint_to-Holds rt program_id tokens a.token_program a.collateral_mint a.destination
        a.manager_authority d.amount a.manager d.manager.bump_seed d.paid ledger' d.minted key n
        paid

  pub deposit-Holds_more :
      (a : ExchangeAccounts) (slot : Slot) (asked : ℕ) (ledger ledger' : Ledger) (p : Pool)
      → (d : IsDeposit rt program_id a slot asked ledger ledger' p) → (n : ℕ)
      → Holds rt program_id ledger p.liquidity.supply_pubkey n
      → Holds rt program_id ledger' p.liquidity.supply_pubkey (n + d.amount)
  deposit-Holds_more a slot asked ledger ledger' p d n before =
      let supply = d.authorised.supply in
      let packed =
        IsCall-Holds rt program_id ledger d.packed a.liquidity_supply n foreign
          (pack_pool-IsCall rt program_id a.reserve ledger d.packed d.authorised.reserve_owned _
            d.stored)
          (rw (← supply) before) in
      let paid =
        user_transfer-Holds_more rt program_id tokens a.token_program a.source a.liquidity_supply
          a.user_authority d.amount d.packed d.paid (rw (← supply) (d.apart)) d.taken n packed in
      rw supply (
        pool_mint_to-Holds rt program_id tokens a.token_program a.collateral_mint a.destination
          a.manager_authority d.amount a.manager d.manager.bump_seed d.paid ledger' d.minted
          a.liquidity_supply (n + d.amount) paid)

  -- What the three writes of a redemption leave under a key
  pub redemption-Holds :
      (a : ExchangeAccounts) (slot : Slot) (asked : ℕ) (ledger ledger' : Ledger) (p : Pool)
      → (d : IsRedemption rt program_id a slot asked ledger ledger' p) → (key : Pubkey) (n : ℕ)
      → Holds rt program_id ledger key n
      → Holds rt program_id ledger' key
          (n - (if key == p.liquidity.supply_pubkey then d.amount else 0))
  redemption-Holds a slot asked ledger ledger' p d key n before =
      let packed =
        IsCall-Holds rt program_id ledger d.packed key n foreign
          (pack_pool-IsCall rt program_id a.reserve ledger d.packed d.authorised.reserve_owned _
            d.stored)
          before in
      let burnt =
        user_burn-Holds rt program_id tokens a.token_program a.collateral_mint a.source
          a.user_authority d.amount d.packed d.burnt d.taken key n packed in
      rw (d.authorised.supply) (
        pool_transfer-Holds rt program_id tokens a.token_program a.liquidity_supply a.destination
          a.manager_authority d.amount a.manager d.manager.bump_seed d.burnt ledger' d.paid key n
          burnt)

  -- The same for the mints
  pub deposit-Issued :
      (a : ExchangeAccounts) (slot : Slot) (asked : ℕ) (ledger ledger' : Ledger) (p : Pool)
      → (d : IsDeposit rt program_id a slot asked ledger ledger' p) → (key : Pubkey) (n : ℕ)
      → Issued rt program_id ledger key n
      → Issued rt program_id ledger' key (n + (if key == mint_of p then d.amount else 0))
  deposit-Issued a slot asked ledger ledger' p d key n before =
      let packed =
        IsCall-Issued rt program_id ledger d.packed key n foreign
          (pack_pool-IsCall rt program_id a.reserve ledger d.packed d.authorised.reserve_owned _
            d.stored)
          before in
      let paid =
        user_transfer-Issued rt program_id tokens a.token_program a.source a.liquidity_supply
          a.user_authority d.amount d.packed d.paid d.taken key n packed in
      rw (d.authorised.mint) (
        pool_mint_to-Issued rt program_id tokens a.token_program a.collateral_mint a.destination
          a.manager_authority d.amount a.manager d.manager.bump_seed d.paid ledger' d.minted key n
          paid)

  pub redemption-Issued :
      (a : ExchangeAccounts) (slot : Slot) (asked : ℕ) (ledger ledger' : Ledger) (p : Pool)
      → (d : IsRedemption rt program_id a slot asked ledger ledger' p) → (key : Pubkey) (n : ℕ)
      → Issued rt program_id ledger key n
      → Issued rt program_id ledger' key n
  redemption-Issued a slot asked ledger ledger' p d key n before =
      let packed =
        IsCall-Issued rt program_id ledger d.packed key n foreign
          (pack_pool-IsCall rt program_id a.reserve ledger d.packed d.authorised.reserve_owned _
            d.stored)
          before in
      let burnt =
        user_burn-Issued rt program_id tokens a.token_program a.collateral_mint a.source
          a.user_authority d.amount d.packed d.burnt d.taken key n packed in
      pool_transfer-Issued rt program_id tokens a.token_program a.liquidity_supply a.destination
        a.manager_authority d.amount a.manager d.manager.bump_seed d.burnt ledger' d.paid key n
        burnt

  pub redemption-Issued_less :
      (a : ExchangeAccounts) (slot : Slot) (asked : ℕ) (ledger ledger' : Ledger) (p : Pool)
      → (d : IsRedemption rt program_id a slot asked ledger ledger' p) → (n : ℕ)
      → Issued rt program_id ledger (mint_of p) n
      → Issued rt program_id ledger' (mint_of p) (n - d.amount)
  redemption-Issued_less a slot asked ledger ledger' p d n before =
      let mint = d.authorised.mint in
      let packed =
        IsCall-Issued rt program_id ledger d.packed a.collateral_mint n foreign
          (pack_pool-IsCall rt program_id a.reserve ledger d.packed d.authorised.reserve_owned _
            d.stored)
          (rw (← mint) before) in
      let burnt =
        user_burn-Issued_less rt program_id tokens a.token_program a.collateral_mint a.source
          a.user_authority d.amount d.packed d.burnt d.taken n packed in
      rw mint (
        pool_transfer-Issued rt program_id tokens a.token_program a.liquidity_supply a.destination
          a.manager_authority d.amount a.manager d.manager.bump_seed d.burnt ledger' d.paid
          a.collateral_mint (n - d.amount) burnt)
