-- ===== src/Processor/Vault/Steps.antt =====
-- From the pools of two ledgers to a step of the vault.
use allwinprotocol.Base.{
  Bool, ℕ, true, ◌+◌, ◌-◌, ◌≤◌, ◌≡◌, refl, ap, ◌∙◌, arith, none, some, ◌==◌, ==→≡, if◌then◌else◌,
  Bool-cases, inl, inr,
}
use allwinprotocol.State.Common.{Pubkey}
use allwinprotocol.State.Pool.{Pool, PoolConfig}
use allwinprotocol.State.Pool.Repack.{keys}
use allwinprotocol.Instruction.{
  PoolingInstruction, init_pool, deposit_pool_liquidity, redeem_pool_collateral,
}
use allwinprotocol.Processor.Runtime.{Ledger, Runtime}
use allwinprotocol.Processor.Vault.{
  pool_at, available, funds, IsSoundPool, IsSound, KeepsPools, IsRequested, is_quiet, VaultStep,
  idle, opens, pays, takes,
}

-- The pools after are sound, each pool before is still there, with its accounts, and the tokens come
-- from those before by a step of the vault.
abbrev pub IsStep : Runtime → Pubkey → PoolingInstruction → Ledger → Ledger → Type 0
IsStep rt program_id i ledger ledger' =
    IsSound rt program_id ledger'
    × KeepsPools rt program_id ledger ledger'
    × VaultStep i (funds rt program_id ledger) (funds rt program_id ledger')

module _ (rt : Runtime) (program_id : Pubkey) (i : PoolingInstruction) (ledger ledger' : Ledger)
    (sound : IsSound rt program_id ledger) where
  pub idle-IsStep :
      is_quiet i ≡ true
      → ((k : Pubkey) → pool_at rt program_id ledger' k ≡ pool_at rt program_id ledger k)
      → IsStep rt program_id i ledger ledger'
  idle-IsStep quiet same = (
    λ key p e. sound key p (rw (same key) at e),
    λ key p e. (p, same key ∙ e, refl),
    idle quiet (λ k. ap available (same k)),
  )

  -- A pool that stands at `key` instead of what stood there
  module _ (key : Pubkey) (q : Pool) (sound_q : IsSoundPool q)
      (stored : (k : Pubkey)
        → pool_at rt program_id ledger' k
          ≡ (if k == key then some q else pool_at rt program_id ledger k)) where
    stored-IsSound : IsSound rt program_id ledger'
    stored-IsSound k p e = elim (Bool-cases (k == key)) [
      | inl here ↦ let e' = rw (stored k, here) at e in let same : q ≡ p = cc in rw (← same) sound_q
      | inr elsewhere ↦ sound k p (rw (stored k, elsewhere) at e)
    ]

    stored-funds :
        (k : Pubkey)
        → funds rt program_id ledger' k
          ≡ (if k == key then some q.liquidity.available_amount else funds rt program_id ledger k)
    stored-funds k = elim (Bool-cases (k == key)) [
      | inl here ↦ rw (stored k, here) refl
      | inr elsewhere ↦ rw (stored k, elsewhere) refl
    ]

    -- A pool with the same accounts stands where the pool was, or none was there.
    stored-KeepsPools :
        ((p : Pool) → pool_at rt program_id ledger key ≡ some p → keys q ≡ keys p)
        → KeepsPools rt program_id ledger ledger'
    stored-KeepsPools keyed k p e = elim (Bool-cases (k == key)) [
      | inl here ↦ (q, rw (stored k, here) refl, keyed p (rw (==→≡ k key here) at e))
      | inr elsewhere ↦ (p, rw (stored k, elsewhere) e, refl)
    ]

    same_keys :
        (p : Pool)
        → pool_at rt program_id ledger key ≡ some p
        → keys q ≡ keys p
        → (p' : Pool) → pool_at rt program_id ledger key ≡ some p'
        → keys q ≡ keys p'
    same_keys p before keyed p' e =
        let same : p ≡ p' = ground (arith, before, e) in rw (← same) keyed

    pub opens-IsStep :
        (config : PoolConfig) (speed kink : ℕ) (pyth : Bool)
        → i ≡ init_pool config speed kink pyth
        → pool_at rt program_id ledger key ≡ none
        → q.liquidity.available_amount ≡ 0
        → IsStep rt program_id i ledger ledger'
    opens-IsStep config speed kink pyth is free empty = (
      stored-IsSound,
      stored-KeepsPools (λ p e. cc (free, e)),
      opens config speed kink pyth key is (ap available free) (rw empty at stored-funds),
    )

    pub pays-IsStep :
        (p : Pool) (asked amount : ℕ)
        → i ≡ deposit_pool_liquidity asked
        → IsRequested asked amount
        → pool_at rt program_id ledger key ≡ some p
        → keys q ≡ keys p
        → q.liquidity.available_amount ≡ p.liquidity.available_amount + amount
        → IsStep rt program_id i ledger ledger'
    pays-IsStep p asked amount is is_requested before keyed paid = (
      stored-IsSound,
      stored-KeepsPools (same_keys p before keyed),
      pays asked key p.liquidity.available_amount amount is is_requested (ap available before)
          (rw paid at stored-funds),
    )

    pub takes-IsStep :
        (p : Pool) (asked amount : ℕ)
        → i ≡ redeem_pool_collateral asked
        → IsRequested asked amount
        → pool_at rt program_id ledger key ≡ some p
        → keys q ≡ keys p
        → amount ≤ p.liquidity.available_amount
        → q.liquidity.available_amount ≡ p.liquidity.available_amount - amount
        → IsStep rt program_id i ledger ledger'
    takes-IsStep p asked amount is is_requested before keyed covered taken = (
      stored-IsSound,
      stored-KeepsPools (same_keys p before keyed),
      takes asked key p.liquidity.available_amount amount is is_requested (ap available before)
          covered (rw taken at stored-funds),
    )

    pub keeps-IsStep :
        (p : Pool)
        → is_quiet i ≡ true
        → pool_at rt program_id ledger key ≡ some p
        → keys q ≡ keys p
        → q.liquidity.available_amount ≡ p.liquidity.available_amount
        → IsStep rt program_id i ledger ledger'
    keeps-IsStep p quiet before keyed same = (
      stored-IsSound,
      stored-KeepsPools (same_keys p before keyed),
      idle quiet (λ k. elim (Bool-cases (k == key)) [
        | inl here ↦ rw (stored k, here, same, ==→≡ k key here, before) refl
        | inr elsewhere ↦ rw (stored k, elsewhere) refl
      ]),
    )
