-- ===== src/Tests/Vault.antt =====
-- The theorems on the whole program at concrete inputs.
use allwinprotocol.Base.{ℕ, ◌≡◌, ◌≢◌, refl, true, false, [], ◌∷◌, arith}
use allwinprotocol.Error.{ok}
use allwinprotocol.State.Codec.{
  write_fields, to_le_bytes, array_refs, from_le_bytes, unpack_bool, pack_bool, pack_decimal,
}
use allwinprotocol.State.Pool
use allwinprotocol.State.Pool.{Pool}
use allwinprotocol.State.Pool.Pack as PoolPack
use allwinprotocol.State.PoolManager
use allwinprotocol.State.PoolManager.Pack as ManagerPack
use allwinprotocol.UnpackUtil.{unpack_u64}
use allwinprotocol.Processor.Runtime.{Ledger, Product}
use allwinprotocol.Instruction
use allwinprotocol.Instruction.{PoolingInstruction}
use allwinprotocol.Processor.Accounts.{write_bytes}
use allwinprotocol.Processor.Oracle.{get_pyth_product_quote_currency}
use allwinprotocol.Processor.Oracle.Attributes.{
  encode_attributes, get_pyth_product_quote_currency-currency_of,
}
use allwinprotocol.Processor.InitPool.{process_init_pool}
use allwinprotocol.Processor.InitPool.Opening.{IsOpening, process_init_pool-IsOpening}
use allwinprotocol.Processor.Dispatch.{process_instruction}
use allwinprotocol.Processor.Vault.{funds, IsSound, KeepsPools, VaultStep}
use allwinprotocol.Processor.Vault.Program.{process_instruction-VaultStep}
use allwinprotocol.Processor.Vault.Reachable.{VaultRun, Reachable-VaultRun}
use allwinprotocol.Tests.Runtime.{rt, pool_bytes}
use allwinprotocol.Tests.RuntimeLaws.{rt-laws, rt-PackLaws, rt-CallLaws}
use allwinprotocol.Tests.Handlers.{deposit_accounts}
use allwinprotocol.Tests.History.{
  attributes, managed, pool_accounts, opened, refreshed, new_pool, reached,
}

pub other_program : ◌≢◌ {A = ℕ} 900 12
other_program = omega arith

Reachable-VaultRun_example : IsSound rt 900 refreshed × VaultRun (funds rt 900 refreshed)
Reachable-VaultRun_example =
    Reachable-VaultRun rt-laws rt-PackLaws rt-CallLaws other_program reached

-- 500 tokens are deposited into the pool, which is empty.
abbrev pub deposited : Ledger
deposited =
    write_bytes
      (write_bytes
        (write_bytes
          (write_bytes
            (write_bytes refreshed 3 (
              pool_bytes (record new_pool {
                liquidity = record (new_pool.liquidity) { available_amount = 500 };
                collateral = record (new_pool.collateral) { mint_total_supply = 500 };
              })))
            1 (21 ∷ 61 ∷ 200 ∷ []))
          22 (22 ∷ 900 ∷ 1500 ∷ []))
        31 (6 ∷ 500 ∷ 265 ∷ 0 ∷ []))
      2 (31 ∷ 61 ∷ 500 ∷ [])

pub deposits :
    process_instruction rt 900 deposit_accounts (4 ∷ to_le_bytes 8 500) refreshed ≡ ok deposited
unfolding process_instruction write_bytes to_le_bytes unpack_u64 write_fields
    ManagerPack.unpack_from_slice array_refs PoolManager.is_initialized PoolPack.unpack_from_slice
    unpack_bool pack_bool Pool.is_initialized PoolPack.pack_into_slice pack_decimal
deposits = refl

process_instruction-VaultStep_example :
    IsSound rt 900 deposited
    × KeepsPools rt 900 refreshed deposited
    × ((i : PoolingInstruction) × (Instruction.unpack (4 ∷ to_le_bytes 8 500) ≡ ok i)
        × VaultStep i (funds rt 900 refreshed) (funds rt 900 deposited))
process_instruction-VaultStep_example =
    process_instruction-VaultStep rt 900 rt-laws rt-PackLaws rt-CallLaws other_program
      deposit_accounts (4 ∷ to_le_bytes 8 500) refreshed deposited
      (Reachable-VaultRun rt-laws rt-PackLaws rt-CallLaws other_program reached).0 deposits

opens :
    process_init_pool rt 900 pool_accounts managed (record { deposit_paused = false }) 7 65 true
    ≡ ok opened
unfolding process_init_pool write_bytes to_le_bytes write_fields ManagerPack.unpack_from_slice
    array_refs PoolManager.is_initialized PoolPack.unpack_from_slice unpack_bool Pool.is_initialized
    PoolPack.pack_into_slice pack_decimal
opens = refl

process_init_pool-IsOpening_example : IsOpening rt 900 pool_accounts managed opened
process_init_pool-IsOpening_example =
    process_init_pool-IsOpening rt 900 pool_accounts managed opened
      (record { deposit_paused = false }) 7 65 true opens

abbrev product : Product
product = record {
  magic = 0xa1b2c3d4;
  ver = 2;
  atype = 2;
  px_acc = 24;
  attr = encode_attributes attributes;
}

get_pyth_product_quote_currency-currency_of_example :
    get_pyth_product_quote_currency product ≡ ok 840
unfolding from_le_bytes
get_pyth_product_quote_currency-currency_of_example =
    get_pyth_product_quote_currency-currency_of product attributes refl refl
