-- ===== src/Processor/Solvency/Places.antt =====
-- Accounts that belong to one pool each, in an exchange with one pool and in the other instructions of
-- src/processor.rs.
use allwinprotocol.Base.{
  ℕ, ◌≡◌, ◌≢◌, refl, sym, ap, ◌∙◌, arith, false, none, some, ◌==◌, ==→≡, if◌then◌else◌, Bool-cases,
  Option-cases, ◌⊎◌, inl, inr,
}
use allwinprotocol.State.Common.{Pubkey}
use allwinprotocol.State.Pool.{Pool}
use allwinprotocol.State.Pool.Repack.{keys}
use allwinprotocol.Instruction.{PoolingInstruction}
use allwinprotocol.Processor.Runtime.{Ledger, Runtime}
use allwinprotocol.Processor.Vault.{pool_at, available, funds, KeepsPools, VaultStep}
use allwinprotocol.Processor.Solvency.{IsKept, IsPlaced}
use allwinprotocol.Processor.Solvency.Others.{is_exchange, unmoved, opened_once}

module _ (rt : Runtime) (program_id : Pubkey) (place : Pool → Pubkey)
    (placed : (p q : Pool) → keys q ≡ keys p → place q ≡ place p)
    (Suits : Ledger → Pubkey → ℕ → Type 0) (ledger ledger' : Ledger)
    (kept : IsKept rt program_id place Suits ledger) where
  -- A pool that stands in place of another, with the same accounts, while the others are untouched
  module _ (key : Pubkey) (p q : Pool) (before : pool_at rt program_id ledger key ≡ some p)
      (keyed : keys q ≡ keys p)
      (stored : (k : Pubkey)
        → pool_at rt program_id ledger' k
          ≡ (if k == key then some q else pool_at rt program_id ledger k)) where
    place_before :
        (k : Pubkey) (r : Pool)
        → pool_at rt program_id ledger' k ≡ some r
        → (r0 : Pool) × (pool_at rt program_id ledger k ≡ some r0) × (place r ≡ place r0)
    place_before k r e = elim (Bool-cases (k == key)) [
      | inl here ↦
          let e' = rw (stored k, here) at e in
          let same : q ≡ r = cc in (p, rw (==→≡ k key here) before, rw (← same) (placed p q keyed))
      | inr elsewhere ↦ (r, rw (stored k, elsewhere) at e, refl)
    ]

    pub exchange-IsKept :
        Suits ledger' (place p) q.liquidity.available_amount
        → ((k : Pubkey) (r : Pool)
            → pool_at rt program_id ledger k ≡ some r
            → place r ≢ place p
            → Suits ledger' (place r) r.liquidity.available_amount)
        → IsKept rt program_id place Suits ledger'
    exchange-IsKept held others = record {
      separate = λ k1 k2 p1 p2 e1 e2 same.
          let (r1, b1, s1) = place_before k1 p1 e1 in
          let (r2, b2, s2) = place_before k2 p2 e2 in
          kept.separate k1 k2 r1 r2 b1 b2 (sym s1 ∙ same ∙ s2);
      suits = λ k r e. elim (Bool-cases (k == key)) [
        | inl here ↦
            let e' = rw (stored k, here) at e in
            let same : q ≡ r = cc in rw (← same, placed p q keyed) held
        | inr elsewhere ↦
            let e' = rw (stored k, elsewhere) at e in
            others k r e' (λ s. let same = kept.separate k key r p e' before s in ground arith)
      ];
    }

  same_amount : (key n m : ℕ) → m ≡ n → Suits ledger' key n → Suits ledger' key m
  same_amount key n m same h = rw same h

  -- An instruction other than a deposit or redemption
  module _ (i : PoolingInstruction) (other : is_exchange i ≡ false)
      (keeps : KeepsPools rt program_id ledger ledger')
      (taken : VaultStep i (funds rt program_id ledger) (funds rt program_id ledger')) where
    -- A pool that stands after it stood before, with its accounts and tokens, or is opened without.
    pool_before :
        (k : Pubkey) (q : Pool)
        → pool_at rt program_id ledger' k ≡ some q
        → ((p : Pool) × (pool_at rt program_id ledger k ≡ some p)
            × (place q ≡ place p)
            × (q.liquidity.available_amount ≡ p.liquidity.available_amount))
          ⊎ ((pool_at rt program_id ledger k ≡ none) × (q.liquidity.available_amount ≡ 0))
    pool_before k q e = elim (Option-cases (pool_at rt program_id ledger k)) [
      | inl none_before ↦ elim (unmoved i other taken k) [
        | inl same ↦ absurd (let s = rw (e, none_before) at same in cc)
        | inr (_, is) ↦ inr (none_before, let s = rw e at is in cc)
      ]
      | inr (p, before) ↦
          let (q', e', keyed) = keeps k p before in
          let same_pool : q' ≡ q = cc in
          elim (unmoved i other taken k) [
            | inl same ↦
                let s = rw (e, before) at same in
                inl (p, before, placed p q (rw same_pool at keyed), cc)
            | inr (free, _) ↦ absurd (let s = rw before at free in cc)
          ]
    ]

    pub other-IsKept :
        ((key : Pubkey) (n : ℕ) → Suits ledger key n → Suits ledger' key n)
        → IsPlaced rt program_id place Suits ledger ledger'
        → IsKept rt program_id place Suits ledger'
    other-IsKept stays well_placed = record {
      separate = λ k1 k2 q1 q2 e1 e2 same. elim (pool_before k1 q1 e1) [
        | inl (p1, b1, s1, _) ↦ elim (pool_before k2 q2 e2) [
          | inl (p2, b2, s2, _) ↦ kept.separate k1 k2 p1 p2 b1 b2 (sym s1 ∙ same ∙ s2)
          | inr (free, _) ↦ absurd ((well_placed k2 q2 free e2).1 k1 p1 b1 (sym same ∙ s1))
        ]
        | inr (free1, _) ↦ elim (pool_before k2 q2 e2) [
          | inl (p2, b2, s2, _) ↦ absurd ((well_placed k1 q1 free1 e1).1 k2 p2 b2 (same ∙ s2))
          | inr (free2, _) ↦
              opened_once i other taken k1 k2 q1.liquidity.available_amount
                q2.liquidity.available_amount (ap available free1) (ap available e1)
                (ap available free2) (ap available e2)
        ]
      ];
      suits = λ k q e. elim (pool_before k q e) [
        | inl (p, before, same, funds_kept) ↦
            rw (same, funds_kept)
              (stays (place p) p.liquidity.available_amount (kept.suits k p before))
        | inr (free, empty) ↦
            same_amount (place q) 0 q.liquidity.available_amount empty ((well_placed k q free e).0)
      ];
    }
