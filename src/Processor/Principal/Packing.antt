-- ===== src/Processor/Principal/Packing.antt =====
-- The pool that a deposit or a redemption stores (`Pack` of src/state/pool.rs) can be packed.
use allwinprotocol.Base.{ℕ, ◌≡◌, refl, length, Fits}
use allwinprotocol.Error.{ok}
use allwinprotocol.State.Common.{Pubkey}
use allwinprotocol.State.Pool.{Pool}
use allwinprotocol.State.Pool.Pack as PoolPack
use allwinprotocol.State.Pool.Principal.{with_funds}
use allwinprotocol.Processor.Runtime.{Ledger, Runtime, PackLaws}
use allwinprotocol.Processor.Accounts.{pack_pool, write_bytes}
use allwinprotocol.Processor.Principal.{stale}

pub with_funds-InRange :
    (p : Pool) (n : ℕ) → PoolPack.InRange p → Fits 64 n → PoolPack.InRange (stale (with_funds p n))
with_funds-InRange p n r fits = record {
  version = r.version;
  slot = r.slot;
  pool_manager = r.pool_manager;
  mint_pubkey = r.mint_pubkey;
  mint_decimals = r.mint_decimals;
  supply_pubkey = r.supply_pubkey;
  fee_receiver = r.fee_receiver;
  pyth_oracle_pubkey = r.pyth_oracle_pubkey;
  available_amount = fits;
  borrowed_amount_wads = r.borrowed_amount_wads;
  cumulative_borrow_rate_wads = r.cumulative_borrow_rate_wads;
  market_price = r.market_price;
  owner_unclaimed = r.owner_unclaimed;
  collateral_mint = r.collateral_mint;
  mint_total_supply = fits;
  collateral_supply = r.collateral_supply;
  un_coll_supply_account = r.un_coll_supply_account;
  l_token_mining_index = r.l_token_mining_index;
  borrow_mining_index = r.borrow_mining_index;
  total_mining_speed = r.total_mining_speed;
  kink_util_rate = r.kink_util_rate;
}

pub pack_pool-ok :
    (rt : Runtime) (packs : PackLaws rt) (p : Pool) (key : Pubkey) (ledger : Ledger)
    → PoolPack.InRange p
    → length (ledger key).bytes ≡ PoolPack.reserve_len
    → (packed : Ledger) × (pack_pool rt p key ledger ≡ ok packed)
unfolding pack_pool
pack_pool-ok rt packs p key ledger r size =
    let (bytes, packed, _, _) = PoolPack.unpack-pack_pool p (ledger key).bytes r size in
    let law = packs.pack-eq PoolPack.reserve_len (PoolPack.pack_into_slice p) (ledger key).bytes in
    (write_bytes ledger key bytes, rw (law, size, packed) refl)
