-- ===== src/Tests/History.antt =====
-- A history of the program from its deployment: a pool manager and a pool are opened, the pool is
-- refreshed, and tokens are deposited.
use allwinprotocol.Base.{
  ℕ, ◌≡◌, ◌≢◌, refl, true, false, List, [], ◌∷◌, ◌++◌, arith, ◌==◌, if◌then◌else◌, replicate,
  Bool-cases, inl, inr,
}
use allwinprotocol.Error.{ok}
use allwinprotocol.State.Codec.{
  write_fields, to_le_bytes, array_refs, unpack_bool, pack_bool, pack_decimal,
}
use allwinprotocol.State.Pool
use allwinprotocol.State.Pool.{Pool}
use allwinprotocol.State.Pool.Pack as PoolPack
use allwinprotocol.State.PoolManager
use allwinprotocol.State.PoolManager.Pack as ManagerPack
use allwinprotocol.Processor.Runtime.{Ledger, AccountInfo}
use allwinprotocol.Processor.Accounts.{write_bytes}
use allwinprotocol.Processor.Oracle.{quote_currency_key}
use allwinprotocol.Processor.Oracle.Attributes.{encode_attributes}
use allwinprotocol.Processor.InitPoolManager.{init_authority}
use allwinprotocol.Processor.Dispatch.{process_instruction}
use allwinprotocol.Processor.Vault.Reachable.{IsOthers, Reachable, deployed, instruction, others}
use allwinprotocol.UnpackUtil.{unpack_pubkey, unpack_bytes32, unpack_u64}
use allwinprotocol.UnpackUtil
use allwinprotocol.Tests.Data.{pool}
use allwinprotocol.Tests.Runtime.{rt, account, pool_bytes, manager_bytes}

-- The currency 840 in two bytes, and 446 bytes of padding
abbrev pub attributes : List (List ℕ × List ℕ)
attributes = (quote_currency_key, 72 ∷ 3 ∷ []) ∷ replicate 223 ([], [])

-- Key 23 receives the fees, 24 has the oracle's price, and 25 its product. The accounts 3 and 11 are
-- not yet the program's.
abbrev pub at_deployment : Ledger
at_deployment = λ k.
    if k == 3
    then record { owner = 0; lamports = 0; bytes = [] }
    else if k == 11
    then record { owner = 0; lamports = 0; bytes = [] }
    else if k == 21
    then record { owner = 12; lamports = 1000; bytes = 6 ∷ 0 ∷ 51 ∷ 0 ∷ [] }
    else if k == 31
    then record { owner = 12; lamports = 1000; bytes = 6 ∷ 0 ∷ 265 ∷ 0 ∷ [] }
    else if k == 23
    then record { owner = 12; lamports = 1000; bytes = 21 ∷ 51 ∷ 0 ∷ [] }
    else if k == 24
    then record { owner = 13; lamports = 1000; bytes = 1 ∷ 3 ∷ 0 ∷ [] }
    else if k == 25
    then record {
      owner = 13;
      lamports = 1000;
      bytes = 0xa1b2c3d4 ∷ 2 ∷ 2 ∷ 24 ∷ encode_attributes attributes;
    }
    else if k == 1
    then record { owner = 12; lamports = 1000; bytes = 21 ∷ 61 ∷ 700 ∷ [] }
    else if k == 2
    then record { owner = 12; lamports = 1000; bytes = 31 ∷ 61 ∷ 0 ∷ [] }
    else record { owner = 12; lamports = 1000; bytes = k ∷ 900 ∷ 1000 ∷ [] }

abbrev pub handed_over : Ledger
handed_over = λ k.
    if k == 3
    then record { owner = 900; lamports = 1000; bytes = replicate 646 0 }
    else if k == 11
    then record { owner = 900; lamports = 1000; bytes = replicate 354 0 }
    else at_deployment k

abbrev pub managed : Ledger
managed = write_bytes handed_over 11 manager_bytes

abbrev pub new_pool : Pool
new_pool = record (pool 0 0) {
  last_update = record { slot = 100; stale = true };
  lottery = record {
    un_coll_supply_account = 41;
    l_token_mining_index = 0;
    borrow_mining_index = 0;
    total_mining_speed = 7;
    kink_util_rate = 65;
  };
}

abbrev pub opened : Ledger
opened = write_bytes managed 3 (pool_bytes new_pool)

abbrev fresh_pool : Pool
fresh_pool = record new_pool { last_update = record { slot = 100; stale = false } }

abbrev pub refreshed : Ledger
refreshed = write_bytes opened 3 (pool_bytes fresh_pool)

abbrev pub manager_accounts : List AccountInfo
manager_accounts =
    account init_authority
    ∷ account 11
    ∷ account 8
    ∷ account 12
    ∷ account 13
    ∷ account 52
    ∷ account 53
    ∷ []

abbrev pub pool_accounts : List AccountInfo
pool_accounts =
    account 3
    ∷ account 21
    ∷ account 22
    ∷ account 23
    ∷ account 25
    ∷ account 24
    ∷ account 31
    ∷ account 32
    ∷ account 11
    ∷ account 51
    ∷ account 41
    ∷ account 7
    ∷ account 8
    ∷ account 12
    ∷ []

pub none_yet : (key : ℕ) → (at_deployment key).owner ≢ 900
none_yet key = ground arith

pub hands_over : IsOthers 900 at_deployment handed_over
hands_over = record {
  kept = λ key own. absurd (none_yet key own);
  cleared = λ key other own. elim (Bool-cases (key == 3)) [
    | inl three ↦ (646, rw three refl)
    | inr not_three ↦ elim (Bool-cases (key == 11)) [
      | inl eleven ↦ (354, rw (not_three, eleven) refl)
      | inr not_eleven ↦
          absurd (none_yet key (rw (not_three, not_eleven) (rw (not_three, not_eleven) at own)))
    ]
  ];
}

pub manager_opens :
    process_instruction rt 900 manager_accounts
      (0 ∷ (to_le_bytes 32 51 ++ to_le_bytes 32 840))
      handed_over
    ≡ ok managed
unfolding process_instruction write_bytes to_le_bytes unpack_pubkey unpack_bytes32
    ManagerPack.unpack_from_slice array_refs PoolManager.is_initialized ManagerPack.pack_into_slice
manager_opens = refl

pub pool_opens :
    process_instruction rt 900 pool_accounts
      (2 ∷ (to_le_bytes 8 7 ++ (to_le_bytes 8 65 ++ 1 ∷ [])))
      managed
    ≡ ok opened
unfolding process_instruction write_bytes to_le_bytes unpack_u64 UnpackUtil.unpack_bool write_fields
    ManagerPack.unpack_from_slice array_refs PoolManager.is_initialized PoolPack.unpack_from_slice
    unpack_bool Pool.is_initialized PoolPack.pack_into_slice pack_decimal
pool_opens = refl

abbrev pub refresh_accounts : List AccountInfo
refresh_accounts = account 3 ∷ account 24 ∷ account 7 ∷ []

pub pool_refreshes : process_instruction rt 900 refresh_accounts (3 ∷ []) opened ≡ ok refreshed
unfolding process_instruction write_bytes to_le_bytes write_fields PoolPack.unpack_from_slice
    array_refs unpack_bool pack_bool Pool.is_initialized PoolPack.pack_into_slice pack_decimal
pool_refreshes = refl

pub reached : Reachable rt 900 refreshed
reached =
    instruction refresh_accounts (3 ∷ [])
      (instruction pool_accounts (2 ∷ (to_le_bytes 8 7 ++ (to_le_bytes 8 65 ++ 1 ∷ [])))
        (instruction manager_accounts (0 ∷ (to_le_bytes 32 51 ++ to_le_bytes 32 840))
          (others (deployed none_yet) hands_over) manager_opens)
        pool_opens)
      pool_refreshes
