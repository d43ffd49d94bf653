-- ===== src/Processor/Solvency/Others.antt =====
-- The instructions of src/processor.rs that make no call of the token program: they write to the
-- program's own accounts, and move no tokens between pools.
use allwinprotocol.Base.{
  ℕ, ◌≡◌, refl, ap, ◌∙◌, arith, Bool, true, false, Option, none, some, List, ◌==◌, ==→≡, Bool-cases,
  inl, inr, ◌⊎◌,
}
use allwinprotocol.Error.{ok}
use allwinprotocol.State.Common.{Pubkey}
use allwinprotocol.State.Pool.{Pool}
use allwinprotocol.Instruction
use allwinprotocol.Instruction.{PoolingInstruction}
use allwinprotocol.Processor.Runtime.{Ledger, AccountInfo, Runtime, IsCall}
use allwinprotocol.Processor.InitPoolManager.{process_set_pool_manager_owner, process_lottery_draw}
use allwinprotocol.Processor.InitPool.Opening.{process_init_pool-IsOpening}
use allwinprotocol.Processor.Dispatch.{dispatch}
use allwinprotocol.Processor.Vault.{available, funds, VaultStep, idle, opens, pays, takes}
use allwinprotocol.Processor.Vault.Refreshes.{
  process_refresh_reserve-stores, process_refresh_ticket-stores, process_init_ticket-stores,
  process_init_pool_manager-stores,
}
use allwinprotocol.Processor.Solvency.{IsPlaced}
use allwinprotocol.Processor.Solvency.Writes.{
  pack_pool-IsCall, pack_ticket-IsCall, pack_pool_manager-IsCall,
}

-- Deposits and redemptions
abbrev pub is_exchange : PoolingInstruction → Bool
is_exchange (Instruction.deposit_pool_liquidity _) = true
is_exchange (Instruction.redeem_pool_collateral _) = true
is_exchange _ = false

-- Any other instruction leaves each pool its tokens, or opens one with none.
pub unmoved :
    (i : PoolingInstruction) {v w : Pubkey → Option ℕ}
    → is_exchange i ≡ false
    → VaultStep i v w
    → (k : Pubkey) → (w k ≡ v k) ⊎ ((v k ≡ none) × (w k ≡ some 0))
unmoved i other (idle _ same) k = inl (same k)
unmoved i other (opens _ _ _ _ key _ free same) k = elim (Bool-cases (k == key)) [
  | inl here ↦ inr (rw (==→≡ k key here) free, same k ∙ rw here refl)
  | inr elsewhere ↦ inl (same k ∙ rw elsewhere refl)
]
unmoved i other (pays asked _ _ _ is _ _ _) k = absurd (ground (arith, is, other))
unmoved i other (takes asked _ _ _ is _ _ _ _) k = absurd (ground (arith, is, other))

-- At most one pool is opened.
pub opened_once :
    (i : PoolingInstruction) {v w : Pubkey → Option ℕ}
    → is_exchange i ≡ false
    → VaultStep i v w
    → (k1 k2 m n : ℕ) → v k1 ≡ none
    → w k1 ≡ some m
    → v k2 ≡ none
    → w k2 ≡ some n
    → k1 ≡ k2
opened_once i other (idle _ same) k1 k2 m n free1 is1 free2 is2 = cc (same k1)
opened_once i other (opens _ _ _ _ key _ _ same) k1 k2 m n free1 is1 free2 is2 =
    ground (arith, same k1, same k2)
opened_once i other (pays _ _ _ _ is _ _ _) k1 k2 m n _ _ _ _ = absurd (ground (arith, is, other))
opened_once i other (takes _ _ _ _ is _ _ _ _) k1 k2 m n _ _ _ _ =
    absurd (ground (arith, is, other))

pub exchange-cases :
    (i : PoolingInstruction)
    → (is_exchange i ≡ false)
      ⊎ (((n : ℕ) × (i ≡ Instruction.deposit_pool_liquidity n))
          ⊎ ((n : ℕ) × (i ≡ Instruction.redeem_pool_collateral n)))
exchange-cases (Instruction.init_pooling_manager _ _) = inl refl
exchange-cases (Instruction.set_pooling_manager_owner _) = inl refl
exchange-cases (Instruction.init_pool _ _ _ _) = inl refl
exchange-cases Instruction.refresh_pool = inl refl
exchange-cases (Instruction.deposit_pool_liquidity n) = inr (inl (n, refl))
exchange-cases (Instruction.redeem_pool_collateral n) = inr (inr (n, refl))
exchange-cases Instruction.init_ticket = inl refl
exchange-cases Instruction.refresh_ticket = inl refl
exchange-cases Instruction.lottery_draw = inl refl

refl-IsCall :
    (program_id : Pubkey) (ledger ledger' : Ledger)
    → ledger ≡ ledger'
    → IsCall program_id ledger ledger'
refl-IsCall program_id ledger ledger' same k = rw same (refl, λ _. refl)

module _ (rt : Runtime) (program_id : Pubkey) where
  -- Instructions that make no call of the token program write to accounts of this one.
  pub dispatch-IsCall :
      (accounts : List AccountInfo) (i : PoolingInstruction) (ledger ledger' : Ledger)
      → is_exchange i ≡ false
      → dispatch rt program_id accounts i ledger ≡ ok ledger'
      → IsCall program_id ledger ledger'
  unfolding dispatch process_set_pool_manager_owner process_lottery_draw
  dispatch-IsCall accounts (Instruction.init_pooling_manager owner currency) ledger ledger' _ h =
      let (key, m, owned, stores) =
        process_init_pool_manager-stores rt program_id owner currency accounts ledger ledger' h in
      pack_pool_manager-IsCall rt program_id key ledger ledger' owned m stores
  dispatch-IsCall accounts (Instruction.set_pooling_manager_owner owner) ledger ledger' _ h =
      refl-IsCall program_id ledger ledger' cc
  dispatch-IsCall accounts (Instruction.init_pool config speed kink pyth) ledger ledger' _ h =
      let o =
        process_init_pool-IsOpening rt program_id accounts ledger ledger' config speed kink pyth
          h in
      pack_pool-IsCall rt program_id o.reserve.key ledger ledger' o.reserve_owned o.pool o.stored
  dispatch-IsCall accounts Instruction.refresh_pool ledger ledger' _ h =
      let (key, _, _, _, p', _, owned, _, stores) =
        process_refresh_reserve-stores rt program_id accounts ledger ledger' h in
      pack_pool-IsCall rt program_id key ledger ledger' owned p' stores
  dispatch-IsCall accounts (Instruction.deposit_pool_liquidity n) ledger ledger' other h = cc
  dispatch-IsCall accounts (Instruction.redeem_pool_collateral n) ledger ledger' other h = cc
  dispatch-IsCall accounts Instruction.init_ticket ledger ledger' _ h =
      let (key, t, owned, stores) =
        process_init_ticket-stores rt program_id accounts ledger ledger' h in
      pack_ticket-IsCall rt program_id key ledger ledger' owned t stores
  dispatch-IsCall accounts Instruction.refresh_ticket ledger ledger' _ h =
      let (key, t, owned, stores) =
        process_refresh_ticket-stores rt program_id accounts ledger ledger' h in
      pack_ticket-IsCall rt program_id key ledger ledger' owned t stores
  dispatch-IsCall accounts Instruction.lottery_draw ledger ledger' _ h =
      refl-IsCall program_id ledger ledger' cc

abbrev pub is_opening : PoolingInstruction → Bool
is_opening (Instruction.init_pool _ _ _ _) = true
is_opening _ = false

unopened :
    (i : PoolingInstruction) {v w : Pubkey → Option ℕ}
    → is_opening i ≡ false
    → VaultStep i v w
    → (k : Pubkey) → v k ≡ none
    → w k ≡ none
unopened i other (idle _ same) k free = same k ∙ free
unopened i other (opens _ _ _ _ _ is _ _) k free = absurd (ground (arith, is, other))
unopened i other (pays _ key _ _ _ _ held same) k free = ground (arith, same k, ==→≡ k key)
unopened i other (takes _ key _ _ _ _ held _ same) k free = ground (arith, same k, ==→≡ k key)

-- Only an instruction InitPool opens a pool that could be opened badly.
pub unopened-IsPlaced :
    (rt : Runtime) (program_id : Pubkey) (place : Pool → Pubkey)
    (Suits : Ledger → Pubkey → ℕ → Type 0) (i : PoolingInstruction) (ledger ledger' : Ledger)
    → is_opening i ≡ false
    → VaultStep i (funds rt program_id ledger) (funds rt program_id ledger')
    → IsPlaced rt program_id place Suits ledger ledger'
unopened-IsPlaced rt program_id place Suits i ledger ledger' other taken k q free e =
    let gone = rw e at (unopened i other taken k (ap available free)) in absurd cc
