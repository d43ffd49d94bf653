-- ===== src/Tests/Solvency.antt =====
-- The theorems on the tokens behind the pools, in the history of a pool from the deployment of the program
-- to a first deposit.
use allwinprotocol.Base.{
  ℕ, ◌≡◌, refl, false, none, some, List, [], ◌∷◌, ◌++◌, arith, ◌==◌, ==→≡, Bool-cases, inl, inr,
}
use allwinprotocol.Error.{ok}
use allwinprotocol.State.Codec.{
  write_fields, to_le_bytes, array_refs, from_le_bytes, unpack_bool, pack_bool,
}
use allwinprotocol.State.Pool
use allwinprotocol.State.Pool.{Pool}
use allwinprotocol.State.Pool.Pack as PoolPack
use allwinprotocol.UnpackUtil.{unpack_pubkey, unpack_bytes32, unpack_u64}
use allwinprotocol.Instruction
use allwinprotocol.Instruction.{
  PoolingInstruction, init_pooling_manager, refresh_pool, deposit_pool_liquidity,
}
use allwinprotocol.Processor.Runtime.{Ledger, AccountInfo}
use allwinprotocol.Processor.Accounts.{write_bytes, unpack_pool}
use allwinprotocol.Processor.Dispatch.{process_instruction}
use allwinprotocol.Processor.Vault.{pool_at}
use allwinprotocol.Processor.Vault.Storage.{write_bytes-pool_at}
use allwinprotocol.Processor.Vault.Program.{process_instruction-VaultStep}
use allwinprotocol.Processor.Vault.Reachable.{none_owned-pool_at}
use allwinprotocol.Processor.Tokens.{token_at, SparesAuthorities, mint_at, MintsNothing}
use allwinprotocol.Processor.Solvency.{
  Holds, Issued, supply_of, mint_of, IsPlaced, IsSolvent, IsWellOpened,
}
use allwinprotocol.Processor.Solvency.Others.{is_opening, unopened-IsPlaced}
use allwinprotocol.Processor.Solvency.Program.{
  Operated, deployed, instruction, others, Operated-IsSolvent,
}
use allwinprotocol.Tests.Runtime.{rt, pool_bytes}
use allwinprotocol.Tests.RuntimeLaws.{rt-laws, rt-PackLaws, rt-CallLaws}
use allwinprotocol.Tests.MintLaws.{rt-TokenLaws}
use allwinprotocol.Tests.Handlers.{deposit_accounts}
use allwinprotocol.Tests.History.{
  at_deployment, handed_over, managed, opened, refreshed, new_pool, manager_accounts, pool_accounts,
  refresh_accounts, none_yet, hands_over, manager_opens, pool_opens, pool_refreshes,
}
use allwinprotocol.Tests.Vault.{other_program, deposited, deposits}

-- An instruction that opens no pool
opens_none :
    (i : PoolingInstruction) (accounts : List AccountInfo) (input : List ℕ) (l l' : Ledger)
    → is_opening i ≡ false
    → Instruction.unpack input ≡ ok i
    → IsSolvent rt 900 l
    → process_instruction rt 900 accounts input l ≡ ok l'
    → IsWellOpened rt 900 l l'
opens_none i accounts input l l' other reads solvent runs =
    let (_, _, (i', reads', taken)) =
      process_instruction-VaultStep rt 900 rt-laws rt-PackLaws rt-CallLaws other_program accounts
        input l l' solvent.sound runs in
    let same : i' ≡ i = cc in
    record {
      supply = unopened-IsPlaced rt 900 supply_of (Holds rt 900) i l l' other (rw same at taken);
      mint = unopened-IsPlaced rt 900 mint_of (Issued rt 900) i l l' other (rw same at taken);
    }

solvent : {l : Ledger} → Operated rt 900 l → IsSolvent rt 900 l
solvent run =
    Operated-IsSolvent rt-laws rt-PackLaws rt-CallLaws (rt-TokenLaws 900) other_program run

-- The accounts that are handed over held no tokens.
spares : SparesAuthorities rt 900 at_deployment handed_over
unfolding token_at
spares key t e _ = elim (Bool-cases (key == 3)) [
  | inl three ↦ absurd (let e' = rw three at e in cc)
  | inr not_three ↦ elim (Bool-cases (key == 11)) [
    | inl eleven ↦ absurd (let e' = rw (not_three, eleven) at e in cc)
    | inr not_eleven ↦
        (t, rw (not_three, not_eleven) (rw (not_three, not_eleven) at e), refl, omega arith)
  ]
]

mints_none : MintsNothing rt 900 at_deployment handed_over
unfolding mint_at
mints_none key m e _ = elim (Bool-cases (key == 3)) [
  | inl three ↦ absurd (let e' = rw three at e in cc)
  | inr not_three ↦ elim (Bool-cases (key == 11)) [
    | inl eleven ↦ absurd (let e' = rw (not_three, eleven) at e in cc)
    | inr not_eleven ↦
        (m, rw (not_three, not_eleven) (rw (not_three, not_eleven) at e), refl, omega arith)
  ]
]

run_handed_over : Operated rt 900 handed_over
run_handed_over = others (deployed none_yet) hands_over spares mints_none

run_managed : Operated rt 900 managed
unfolding to_le_bytes unpack_pubkey unpack_bytes32 from_le_bytes Instruction.unpack
run_managed =
    instruction manager_accounts (0 ∷ (to_le_bytes 32 51 ++ to_le_bytes 32 840)) run_handed_over
      (opens_none (init_pooling_manager 51 840) manager_accounts
        (0 ∷ (to_le_bytes 32 51 ++ to_le_bytes 32 840)) handed_over managed refl refl
        (solvent run_handed_over) manager_opens)
      manager_opens

no_pool_3 : pool_at rt 900 managed 3 ≡ none
unfolding pool_at write_bytes unpack_pool PoolPack.unpack_from_slice array_refs from_le_bytes
    unpack_bool Pool.is_initialized
no_pool_3 = refl

no_pool_11 : pool_at rt 900 managed 11 ≡ none
unfolding pool_at write_bytes unpack_pool write_fields to_le_bytes
no_pool_11 = refl

no_pools : (k : ℕ) → pool_at rt 900 managed k ≡ none
unfolding write_bytes
no_pools k = elim (Bool-cases (k == 3)) [
  | inl three ↦ rw (==→≡ k 3 three) no_pool_3
  | inr not_three ↦ elim (Bool-cases (k == 11)) [
    | inl eleven ↦ rw (==→≡ k 11 eleven) no_pool_11
    | inr not_eleven ↦
        none_owned-pool_at rt 900 managed k
          (λ own. none_yet k (rw (not_three, not_eleven) (rw (not_three, not_eleven) at own)))
  ]
]

pool_opened : pool_at rt 900 opened 3 ≡ some new_pool
unfolding pool_at write_bytes unpack_pool PoolPack.unpack_from_slice array_refs from_le_bytes
    unpack_bool Pool.is_initialized write_fields to_le_bytes pack_bool
pool_opened = refl

supply-Holds : Holds rt 900 opened 22 0
unfolding token_at write_bytes
supply-Holds = record {
  account = record { mint = 22; owner = 900; amount = 1000 };
  there = refl;
  authority = record { key = 646; bump_seed = 254; derived = refl };
  enough = omega arith;
}

mint-Issued : Issued rt 900 opened 31 0
unfolding mint_at write_bytes
mint-Issued = record {
  mint = record { decimals = 6; supply = 0; mint_authority = 265 };
  there = refl;
  authority = record { key = 11; bump_seed = 254; derived = refl };
  few = omega arith;
}

-- The pool that is opened is the only one.
placed :
    (place : Pool → ℕ) (Suits : Ledger → ℕ → ℕ → Type 0)
    → Suits opened (place new_pool) 0
    → IsPlaced rt 900 place Suits managed opened
placed place Suits suits k q free e =
    let stored =
      write_bytes-pool_at rt 900 managed 3 (pool_bytes new_pool) (some new_pool) pool_opened k in
    elim (Bool-cases (k == 3)) [
      | inl three ↦
          let s = rw (three, e) at stored in
          let same : q ≡ new_pool = cc in
          (rw same suits, λ j p before. absurd (let f = no_pools j in cc))
      | inr not_three ↦ absurd (let s = rw (not_three, free, e) at stored in cc)
    ]

-- The pool's supply account and mint are of derived keys.
well_opened : IsWellOpened rt 900 managed opened
well_opened = record {
  supply = placed supply_of (Holds rt 900) supply-Holds;
  mint = placed mint_of (Issued rt 900) mint-Issued;
}

run_opened : Operated rt 900 opened
run_opened =
    instruction pool_accounts (2 ∷ (to_le_bytes 8 7 ++ (to_le_bytes 8 65 ++ 1 ∷ []))) run_managed
      well_opened pool_opens

run_refreshed : Operated rt 900 refreshed
unfolding Instruction.unpack
run_refreshed =
    instruction refresh_accounts (3 ∷ []) run_opened
      (opens_none refresh_pool refresh_accounts (3 ∷ []) opened refreshed refl refl
        (solvent run_opened) pool_refreshes)
      pool_refreshes

run_deposited : Operated rt 900 deposited
unfolding to_le_bytes unpack_u64 from_le_bytes Instruction.unpack
run_deposited =
    instruction deposit_accounts (4 ∷ to_le_bytes 8 500) run_refreshed
      (opens_none (deposit_pool_liquidity 500) deposit_accounts (4 ∷ to_le_bytes 8 500) refreshed
        deposited refl refl (solvent run_refreshed) deposits)
      deposits

Operated-IsSolvent_example : IsSolvent rt 900 deposited
Operated-IsSolvent_example =
    Operated-IsSolvent rt-laws rt-PackLaws rt-CallLaws (rt-TokenLaws 900) other_program
      run_deposited
