-- ===== src/Tests/Bytes.antt =====
-- The theorems on encodings at concrete inputs.
use allwinprotocol.Base.{
  ℕ, ◌≡◌, refl, List, [], ◌∷◌, ◌++◌, arith, true, false, length, replicate, All, Fits,
}
use allwinprotocol.Error.{ok}
use allwinprotocol.State.Codec.{to_le_bytes}
use allwinprotocol.State.Codec.RoundTrip.{IsByte}
use allwinprotocol.State.Pool.Pack as PoolPack
use allwinprotocol.State.Ticket.Pack as TicketPack
use allwinprotocol.State.Ticket.PackRoundTrip as TicketRoundTrip
use allwinprotocol.State.Mining.Pack as MiningPack
use allwinprotocol.State.Mining.PackRoundTrip as MiningRoundTrip
use allwinprotocol.State.PoolManager.Pack as ManagerPack
use allwinprotocol.Instruction.{PoolingInstruction, init_pool, deposit_pool_liquidity, unpack}
use allwinprotocol.Instruction.Encoding.{encode, unpack-encode}
use allwinprotocol.Instruction.Decoding.{Encodes, unpack_sound}
use allwinprotocol.Tests.Data.{pool, position_of, ticket, mining, manager}

pub pool-InRange : (shares : ℕ) → Fits 64 shares → PoolPack.InRange (pool 1000 shares)
pool-InRange shares fits = record {
  version = omega arith;
  slot = omega arith;
  pool_manager = omega arith;
  mint_pubkey = omega arith;
  mint_decimals = omega arith;
  supply_pubkey = omega arith;
  fee_receiver = omega arith;
  pyth_oracle_pubkey = omega arith;
  available_amount = omega arith;
  borrowed_amount_wads = omega arith;
  cumulative_borrow_rate_wads = omega arith;
  market_price = omega arith;
  owner_unclaimed = omega arith;
  collateral_mint = omega arith;
  mint_total_supply = fits;
  collateral_supply = omega arith;
  un_coll_supply_account = omega arith;
  l_token_mining_index = omega arith;
  borrow_mining_index = omega arith;
  total_mining_speed = omega arith;
  kink_util_rate = omega arith;
}

unpack-pack_pool_example :
    (bytes : List ℕ) × (PoolPack.pack_into_slice (pool 1000 900) (replicate PoolPack.reserve_len 0)
      ≡ ok bytes)
    × (length bytes ≡ PoolPack.reserve_len)
    × (PoolPack.unpack_from_slice bytes ≡ ok (pool 1000 900))
unpack-pack_pool_example =
    PoolPack.unpack-pack_pool (pool 1000 900) (replicate PoolPack.reserve_len 0)
      (pool-InRange 900 (omega arith)) refl

collateral-Fits :
    (reserve amount : ℕ)
    → Fits 256 reserve
    → Fits 64 amount
    → TicketRoundTrip.CollateralFits (position_of reserve amount)
collateral-Fits reserve amount r a = record {
  reserve = r;
  amount = a;
  value = omega arith;
  index = omega arith;
}

ticket-InRange : TicketRoundTrip.InRange ticket
ticket-InRange = record {
  version = omega arith;
  slot = omega arith;
  pool_manager = omega arith;
  owner = omega arith;
  deposited_value = omega arith;
  unclaimed_mine = omega arith;
  positions = omega arith;
  deposits = (
    collateral-Fits 1 100 (omega arith) (omega arith),
    (collateral-Fits 2 50 (omega arith) (omega arith), tt),
  );
}

unpack-pack_ticket_example :
    (bytes : List ℕ) × (TicketPack.pack_into_slice ticket (replicate TicketPack.obligation_len 0)
      ≡ ok bytes)
    × (length bytes ≡ TicketPack.obligation_len)
    × (TicketPack.unpack_from_slice bytes ≡ ok ticket)
unpack-pack_ticket_example =
    TicketRoundTrip.unpack-pack_ticket ticket (replicate TicketPack.obligation_len 0) ticket-InRange
      refl

mining-InRange : MiningRoundTrip.InRange mining
mining-InRange = record {
  version = omega arith;
  owner = omega arith;
  pool_manager = omega arith;
  unclaimed_mine = omega arith;
  positions = omega arith;
  indices = (record { reserve = omega arith; amount = omega arith; index = omega arith }, tt);
}

unpack-pack_mining_example :
    (bytes : List ℕ) × (MiningPack.pack_into_slice mining (replicate MiningPack.mining_len 0)
      ≡ ok bytes)
    × (length bytes ≡ MiningPack.mining_len)
    × (MiningPack.unpack_from_slice bytes ≡ ok mining)
unpack-pack_mining_example =
    MiningRoundTrip.unpack-pack_mining mining (replicate MiningPack.mining_len 0) mining-InRange
      refl

manager-InRange : ManagerPack.InRange manager
manager-InRange = record {
  version = omega arith;
  bump_seed = omega arith;
  pending_owner = omega arith;
  owner = omega arith;
  quote_currency = omega arith;
  token_program_id = omega arith;
  oracle_program_id = omega arith;
  mine_mint = omega arith;
  mine_supply_account = omega arith;
}

unpack-pack_pool_manager_example :
    (bytes : List ℕ) × (ManagerPack.pack_into_slice manager
        (replicate ManagerPack.pool_manager_len 0)
      ≡ ok bytes)
    × (length bytes ≡ ManagerPack.pool_manager_len)
    × (ManagerPack.unpack_from_slice bytes ≡ ok manager)
unpack-pack_pool_manager_example =
    ManagerPack.unpack-pack_pool_manager manager (replicate ManagerPack.pool_manager_len 0)
      manager-InRange refl

-- An instruction to make a pool, with a byte after it
abbrev making : PoolingInstruction
making = init_pool (record { deposit_paused = false }) 1000 65 true

unpack-encode_example : unpack (encode making ++ 9 ∷ []) ≡ ok making
unpack-encode_example = unpack-encode making (9 ∷ []) (refl, omega arith, omega arith)

abbrev deposit_bytes : List ℕ
deposit_bytes = encode (deposit_pool_liquidity 1000)

deposit_read : unpack deposit_bytes ≡ ok (deposit_pool_liquidity 1000)
unfolding to_le_bytes
deposit_read = unpack-encode (deposit_pool_liquidity 1000) [] (omega arith)

deposit_bytes-IsByte : All IsByte deposit_bytes
unfolding to_le_bytes
deposit_bytes-IsByte = ground arith

unpack_sound_example : Encodes (deposit_pool_liquidity 1000) deposit_bytes
unpack_sound_example =
    unpack_sound deposit_bytes (deposit_pool_liquidity 1000) deposit_bytes-IsByte deposit_read
