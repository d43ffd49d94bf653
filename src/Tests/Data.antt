-- ===== src/Tests/Data.antt =====
-- Test data: small states, with keys written as numbers.
use allwinprotocol.Base.{ℕ, ◌*◌, true, false, [], ◌∷◌}
use allwinprotocol.Math.Common.{wad}
use allwinprotocol.State.Liquidity.{ReserveLiquidity}
use allwinprotocol.State.Pool.{Pool}
use allwinprotocol.State.Ticket.{Ticket, TicketCollateral}
use allwinprotocol.State.Mining.{Mining}
use allwinprotocol.State.PoolManager.{PoolManager}

abbrev pub liquidity : ℕ → ℕ → ℕ → ReserveLiquidity
liquidity available lent claimed = record {
  mint_pubkey = 21;
  mint_decimals = 6;
  supply_pubkey = 22;
  fee_receiver = 23;
  use_pyth_oracle = true;
  pyth_oracle_pubkey = 24;
  available_amount = available;
  borrowed_amount_wads = lent;
  cumulative_borrow_rate_wads = wad;
  market_price = 3 * wad;
  owner_unclaimed = claimed;
}

-- A pool that was refreshed in slot 100.
abbrev pub pool : ℕ → ℕ → Pool
pool available shares = record {
  version = 1;
  last_update = record { slot = 100; stale = false };
  pool_manager = 11;
  liquidity = liquidity available 0 0;
  collateral = record { mint_pubkey = 31; mint_total_supply = shares; supply_pubkey = 32 };
  config = record { deposit_paused = false };
  lottery = record {
    un_coll_supply_account = 41;
    l_token_mining_index = 5 * wad;
    borrow_mining_index = 0;
    total_mining_speed = 7;
    kink_util_rate = 65;
  };
  reentry_lock = false;
}

abbrev pub manager : PoolManager
manager = record {
  version = 1;
  bump_seed = 254;
  pending_owner = 0;
  owner = 51;
  quote_currency = 840;
  token_program_id = 12;
  oracle_program_id = 13;
  mine_mint = 52;
  mine_supply_account = 53;
}

abbrev pub position_of : ℕ → ℕ → TicketCollateral
position_of reserve amount = record {
  index = 4 * wad;
  deposit_reserve = reserve;
  deposited_amount = amount;
  market_value = 0;
}

-- A ticket with 100 in pool 1 and 50 in pool 2.
abbrev pub ticket : Ticket
ticket = record {
  version = 1;
  last_update = record { slot = 100; stale = false };
  pool_manager = 11;
  owner = 61;
  deposits = position_of 1 100 ∷ position_of 2 50 ∷ [];
  deposited_value = 0;
  unclaimed_mine = 9;
}

abbrev pub mining : Mining
mining = record {
  version = 1;
  owner = 61;
  pool_manager = 11;
  mining_indices = (record { reserve = 1; un_coll_l_token_amount = 30; index = 4 * wad }) ∷ [];
  unclaimed_mine = 9;
}
