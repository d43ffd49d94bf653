-- ===== src/Tests/Progress.antt =====
-- The theorems on deposits and redemptions that succeed, and on the oracle's price, at concrete inputs.
use allwinprotocol.Base.{ℕ, List, ◌*◌, ◌/◌, ◌^◌, ◌≡◌, refl, arith}
use allwinprotocol.Base.Integers.{pos, negsuc}
use allwinprotocol.Error.{ok, fail, invalid_oracle_config, >>=-eq-ok}
use allwinprotocol.Math.Common.{wad}
use allwinprotocol.Processor.Runtime.{Ledger, price_type, unknown_type}
use allwinprotocol.Processor.Exchange.{IsAuthorised}
use allwinprotocol.Processor.Oracle.{market_price_of}
use allwinprotocol.Processor.Oracle.MarketPrice.{market_price_of_exact}
use allwinprotocol.Processor.Deposit.{process_deposit_pool_liquidity}
use allwinprotocol.Processor.Deposit.Progress.{process_deposit_pool_liquidity-succeeds}
use allwinprotocol.Processor.Redeem.{process_redeem_pool_collateral}
use allwinprotocol.Processor.Redeem.Progress.{process_redeem_pool_collateral-succeeds}
use allwinprotocol.State.Codec.{write_fields, to_le_bytes, array_refs, from_le_bytes}
use allwinprotocol.State.Pool.{Pool}
use allwinprotocol.State.Pool.Pack as PoolPack
use allwinprotocol.State.PoolManager
use allwinprotocol.State.PoolManager.Pack as ManagerPack
use allwinprotocol.Processor.Accounts.{
  write_bytes, pack_pool, unpack_pool_manager, user_burn, pool_transfer, user_transfer,
  pool_mint_to,
}
use allwinprotocol.Tests.Bytes.{pool-InRange}
use allwinprotocol.Tests.Data.{pool, manager}
use allwinprotocol.Tests.Runtime.{rt, ledger}
use allwinprotocol.Tests.RuntimeLaws.{rt-PackLaws}
use allwinprotocol.Tests.Handlers.{
  deposit_accounts, deposit_keys, taken, redeem_accounts, redeem_keys, redeem_taken, stored, backed,
}

-- The price 3 at the exponents 2 and -3
market_price_of_exact_example :
    (market_price_of (record { ptype = price_type; price = pos 3; expo = pos 2 })
      ≡ ok (wad * 3 * 10 ^ 2))
    × (market_price_of (record { ptype = price_type; price = pos 3; expo = negsuc 2 })
        ≡ ok (wad * 3 / 10 ^ 3))
    × (market_price_of (record { ptype = price_type; price = negsuc 3; expo = pos 0 })
        ≡ fail invalid_oracle_config)
    × (market_price_of (record { ptype = unknown_type; price = pos 3; expo = pos 0 })
        ≡ fail invalid_oracle_config)
market_price_of_exact_example = market_price_of_exact 3 2 (pos 3) (pos 0) (omega arith)

authorised : IsAuthorised rt 900 redeem_keys 100 ledger manager (pool 1000 1000)
unfolding unpack_pool_manager write_fields to_le_bytes ManagerPack.unpack_from_slice array_refs
    from_le_bytes PoolManager.is_initialized
authorised = record {
  manager_read = refl;
  manager_owned = refl;
  token_program = refl;
  reserve_read = stored;
  reserve_owned = refl;
  managed = refl;
  supply = refl;
  mint = refl;
  fresh = refl;
  unlocked = refl;
  authority = refl;
}

deposit_passes : IsAuthorised rt 900 deposit_keys 100 ledger manager (pool 1000 1000)
unfolding unpack_pool_manager write_fields to_le_bytes ManagerPack.unpack_from_slice array_refs
    from_le_bytes PoolManager.is_initialized
deposit_passes = record {
  manager_read = refl;
  manager_owned = refl;
  token_program = refl;
  reserve_read = stored;
  reserve_owned = refl;
  managed = refl;
  supply = refl;
  mint = refl;
  fresh = refl;
  unlocked = refl;
  authority = refl;
}

packed-write_bytes :
    (p : Pool) (packed : Ledger)
    → pack_pool rt p 3 ledger ≡ ok packed
    → (bytes : List ℕ) × (packed ≡ write_bytes ledger 3 bytes)
unfolding pack_pool
packed-write_bytes p packed h =
    let (bytes, _, made) =
      >>=-eq-ok (rt.pack PoolPack.reserve_len (PoolPack.pack_into_slice p) (ledger 3).bytes) _ h in
    (bytes, cc)

-- 30 of the 40 shares are redeemed.
process_redeem_pool_collateral-succeeds_example :
    (ledger' : Ledger) × (process_redeem_pool_collateral rt 900 30 redeem_accounts ledger
      ≡ ok ledger')
unfolding user_burn pool_transfer write_bytes
process_redeem_pool_collateral-succeeds_example =
    process_redeem_pool_collateral-succeeds rt rt-PackLaws 900 redeem_accounts redeem_keys 100
      ledger manager (pool 1000 1000) (record { mint = 31; owner = 61; amount = 40 })
      (record { mint = 21; owner = 61; amount = 700 }) 30 redeem_taken authorised (omega arith)
      (omega arith) refl refl refl backed (pool-InRange 1000 (omega arith)) (omega arith)
      (omega arith) (omega arith) (omega arith)
      (λ packed stored'.
        let (bytes, same) = packed-write_bytes _ packed stored' in rw same (_, _, refl, refl))

-- 500 tokens are deposited.
process_deposit_pool_liquidity-succeeds_example :
    (ledger' : Ledger) × (process_deposit_pool_liquidity rt 900 500 deposit_accounts ledger
      ≡ ok ledger')
unfolding user_transfer pool_mint_to write_bytes
process_deposit_pool_liquidity-succeeds_example =
    process_deposit_pool_liquidity-succeeds rt rt-PackLaws 900 deposit_accounts deposit_keys 100
      ledger manager (pool 1000 1000) (record { mint = 21; owner = 61; amount = 700 })
      (record { mint = 31; owner = 61; amount = 40 }) 500 taken deposit_passes refl (omega arith)
      (omega arith) refl refl refl backed (pool-InRange 1000 (omega arith)) (omega arith)
      (omega arith) (omega arith) (omega arith)
      (λ packed stored'.
        let (bytes, same) = packed-write_bytes _ packed stored' in rw same (_, _, refl, refl))
