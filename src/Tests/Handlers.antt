-- ===== src/Tests/Handlers.antt =====
-- The theorems on deposits and redemptions at concrete inputs.
use allwinprotocol.Base.{◌≡◌, refl, List, [], ◌∷◌, arith, u64_max}
use allwinprotocol.Error.{ok}
use allwinprotocol.State.Codec.{
  write_fields, to_le_bytes, array_refs, from_le_bytes, unpack_bool, pack_bool, pack_decimal,
}
use allwinprotocol.State.Pool
use allwinprotocol.State.Pool.{Pool}
use allwinprotocol.State.Pool.Pack as PoolPack
use allwinprotocol.State.Pool.Principal.{IsBacked, with_funds}
use allwinprotocol.State.PoolManager
use allwinprotocol.State.PoolManager.{PoolManager}
use allwinprotocol.State.PoolManager.Pack as ManagerPack
use allwinprotocol.Processor.Runtime.{Ledger, AccountInfo}
use allwinprotocol.Processor.Accounts.{unpack_pool, write_bytes}
use allwinprotocol.Processor.Exchange.{ExchangeAccounts, take_accounts}
use allwinprotocol.Processor.Principal.{stale}
use allwinprotocol.Processor.Deposit.{
  process_deposit_pool_liquidity, process_deposit_pool_liquidity-IsDeposit,
}
use allwinprotocol.Processor.Deposit as Deposit
use allwinprotocol.Processor.Redeem.{
  process_redeem_pool_collateral, process_redeem_pool_collateral-IsRedemption,
}
use allwinprotocol.Processor.Redeem as Redeem
use allwinprotocol.Tests.Data.{pool}
use allwinprotocol.Tests.Runtime.{rt, pool_bytes, ledger, account}
use allwinprotocol.Tests.RuntimeLaws.{rt-laws}

-- The last keys are the manager's authority, the user, the clock and the token program.
abbrev pub deposit_accounts : List AccountInfo
deposit_accounts =
    account 1
    ∷ account 2
    ∷ account 3
    ∷ account 31
    ∷ account 22
    ∷ account 11
    ∷ account 265
    ∷ account 61
    ∷ account 7
    ∷ account 12
    ∷ []

abbrev pub deposit_keys : ExchangeAccounts
deposit_keys = record {
  source = 1;
  destination = 2;
  reserve = 3;
  collateral_mint = 31;
  liquidity_supply = 22;
  manager = 11;
  manager_authority = 265;
  user_authority = 61;
  clock = account 7;
  token_program = 12;
}

pub taken : take_accounts rt deposit_accounts ledger ≡ ok (deposit_keys, 100)
unfolding take_accounts
taken = refl

pub stored : unpack_pool rt ledger 3 ≡ ok (pool 1000 1000)
unfolding unpack_pool write_fields to_le_bytes PoolPack.unpack_from_slice array_refs from_le_bytes
    unpack_bool pack_bool Pool.is_initialized
stored = refl

pub backed : IsBacked (pool 1000 1000)
backed = record {
  lent = refl;
  claimed = refl;
  base_rate = refl;
  shares = refl;
  in_range = omega arith;
}

-- 500 tokens are deposited.
abbrev deposit_packed : Ledger
deposit_packed = write_bytes ledger 3 (pool_bytes (stale (with_funds (pool 1000 1000) 1500)))

abbrev deposit_paid : Ledger
deposit_paid =
    write_bytes (write_bytes deposit_packed 1 (21 ∷ 61 ∷ 200 ∷ [])) 22 (22 ∷ 900 ∷ 1500 ∷ [])

abbrev after_deposit : Ledger
after_deposit =
    write_bytes (write_bytes deposit_paid 31 (6 ∷ 1500 ∷ 265 ∷ 0 ∷ [])) 2 (31 ∷ 61 ∷ 540 ∷ [])

deposited : process_deposit_pool_liquidity rt 900 500 deposit_accounts ledger ≡ ok after_deposit
unfolding process_deposit_pool_liquidity write_bytes pack_decimal PoolPack.pack_into_slice
    ManagerPack.unpack_from_slice PoolManager.is_initialized write_fields to_le_bytes
    PoolPack.unpack_from_slice array_refs from_le_bytes unpack_bool pack_bool Pool.is_initialized
deposited = refl

process_deposit_pool_liquidity-IsDeposit_example :
    Deposit.IsDeposit rt 900 deposit_keys 100 500 ledger after_deposit (pool 1000 1000)
process_deposit_pool_liquidity-IsDeposit_example =
    process_deposit_pool_liquidity-IsDeposit rt 900 500 deposit_accounts ledger after_deposit
      deposit_keys 100 (pool 1000 1000) rt-laws taken stored backed deposited

-- All 40 shares that the user holds are redeemed.
abbrev pub redeem_accounts : List AccountInfo
redeem_accounts =
    account 2
    ∷ account 1
    ∷ account 3
    ∷ account 31
    ∷ account 22
    ∷ account 11
    ∷ account 265
    ∷ account 61
    ∷ account 7
    ∷ account 12
    ∷ []

abbrev pub redeem_keys : ExchangeAccounts
redeem_keys = record deposit_keys { source = 2; destination = 1 }

pub redeem_taken : take_accounts rt redeem_accounts ledger ≡ ok (redeem_keys, 100)
unfolding take_accounts
redeem_taken = refl

abbrev redeem_packed : Ledger
redeem_packed = write_bytes ledger 3 (pool_bytes (stale (with_funds (pool 1000 1000) 960)))

abbrev redeem_burnt : Ledger
redeem_burnt =
    write_bytes (write_bytes redeem_packed 2 (31 ∷ 61 ∷ 0 ∷ [])) 31 (6 ∷ 960 ∷ 265 ∷ 0 ∷ [])

abbrev after_redemption : Ledger
after_redemption =
    write_bytes (write_bytes redeem_burnt 22 (22 ∷ 900 ∷ 960 ∷ [])) 1 (21 ∷ 61 ∷ 740 ∷ [])

redeemed :
    process_redeem_pool_collateral rt 900 u64_max redeem_accounts ledger ≡ ok after_redemption
unfolding process_redeem_pool_collateral write_bytes pack_decimal PoolPack.pack_into_slice
    ManagerPack.unpack_from_slice PoolManager.is_initialized write_fields to_le_bytes
    PoolPack.unpack_from_slice array_refs from_le_bytes unpack_bool pack_bool Pool.is_initialized
redeemed = refl

process_redeem_pool_collateral-IsRedemption_example :
    Redeem.IsRedemption rt 900 redeem_keys 100 u64_max ledger after_redemption (pool 1000 1000)
process_redeem_pool_collateral-IsRedemption_example =
    process_redeem_pool_collateral-IsRedemption rt 900 u64_max redeem_accounts ledger
      after_redemption redeem_keys 100 (pool 1000 1000) rt-laws redeem_taken stored backed redeemed
