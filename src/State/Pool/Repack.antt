-- ===== src/State/Pool/Repack.antt =====
-- What is read of a pool that was packed with success, whether or not its fields fit their bytes
-- (src/state/pool.rs): where nothing is lent or claimed, the funds are read back.
use allwinprotocol.Base.{
  ℕ, ◌≡◌, List, [], ◌∷◌, refl, ap, sym, ◌∙◌, ◌++◌, arith, drop, length, Bool, length-append,
  length-drop,
}
use allwinprotocol.Error.{ok}
use allwinprotocol.Math.Common.{wad}
use allwinprotocol.State.Common.{Pubkey, program_version}
use allwinprotocol.State.Codec.{write_fields, pack_bool}
use allwinprotocol.State.Codec.RoundTrip.{
  cut, cut_lem, cut-cut, cut_values, array_refs-write_fields_cut, length-write_fields,
  pack_decimal->>=, unpack_bool-pack_bool, pack_bool-lt,
}
use allwinprotocol.State.Pool.{Pool}
use allwinprotocol.State.Pool.Principal.{IsBacked}
use allwinprotocol.State.Pool.Pack.{
  own_fields, pack_into_slice, from_fields, unpack_from_slice, reserve_len,
}

-- The pool with every field cut to its bytes.
abbrev cut_pool : Pool → Pool
cut_pool p = record {
  version = cut 1 p.version;
  last_update = record { slot = cut 8 p.last_update.slot; stale = p.last_update.stale };
  pool_manager = cut 32 p.pool_manager;
  liquidity = record {
    mint_pubkey = cut 32 p.liquidity.mint_pubkey;
    mint_decimals = cut 1 p.liquidity.mint_decimals;
    supply_pubkey = cut 32 p.liquidity.supply_pubkey;
    fee_receiver = cut 32 p.liquidity.fee_receiver;
    use_pyth_oracle = p.liquidity.use_pyth_oracle;
    pyth_oracle_pubkey = cut 32 p.liquidity.pyth_oracle_pubkey;
    available_amount = cut 8 p.liquidity.available_amount;
    borrowed_amount_wads = cut 16 p.liquidity.borrowed_amount_wads;
    cumulative_borrow_rate_wads = cut 16 p.liquidity.cumulative_borrow_rate_wads;
    market_price = cut 16 p.liquidity.market_price;
    owner_unclaimed = cut 16 p.liquidity.owner_unclaimed;
  };
  collateral = record {
    mint_pubkey = cut 32 p.collateral.mint_pubkey;
    mint_total_supply = cut 8 p.collateral.mint_total_supply;
    supply_pubkey = cut 32 p.collateral.supply_pubkey;
  };
  config = p.config;
  lottery = record {
    un_coll_supply_account = cut 32 p.lottery.un_coll_supply_account;
    l_token_mining_index = cut 16 p.lottery.l_token_mining_index;
    borrow_mining_index = cut 16 p.lottery.borrow_mining_index;
    total_mining_speed = cut 8 p.lottery.total_mining_speed;
    kink_util_rate = cut 8 p.lottery.kink_util_rate;
  };
  reentry_lock = p.reentry_lock;
}

cut_bool : (b : Bool) → cut 1 (pack_bool b) ≡ pack_bool b
cut_bool b = cut_lem 1 (pack_bool b) (omega (arith, pack_bool-lt b))

read_cut :
    (p : Pool)
    → p.version ≡ program_version
    → from_fields (cut_values (own_fields p)) ≡ ok (cut_pool p)
unfolding from_fields
read_cut p h = ground (
  arith,
  cut_lem 1 1 (omega arith),
  cut_bool p.last_update.stale,
  cut_bool p.liquidity.use_pyth_oracle,
  cut_bool p.config.deposit_paused,
  cut_bool p.reentry_lock,
  unpack_bool-pack_bool p.last_update.stale,
  unpack_bool-pack_bool p.liquidity.use_pyth_oracle,
  unpack_bool-pack_bool p.config.deposit_paused,
  unpack_bool-pack_bool p.reentry_lock,
)

pack_into_slice-fields :
    (p : Pool) (output bytes : List ℕ)
    → length output ≡ reserve_len
    → pack_into_slice p output ≡ ok bytes
    → bytes ≡ write_fields (own_fields p) ++ drop 398 output
unfolding pack_into_slice
pack_into_slice-fields p output bytes size h =
    let h0 = rw size at h in
    let h1 = pack_decimal->>= p.liquidity.borrowed_amount_wads _ h0 in
    let h2 = pack_decimal->>= p.liquidity.cumulative_borrow_rate_wads _ h1 in
    let h3 = pack_decimal->>= p.liquidity.market_price _ h2 in
    let h4 = pack_decimal->>= p.lottery.l_token_mining_index _ h3 in
    let h5 = pack_decimal->>= p.lottery.borrow_mining_index _ h4 in
    let h6 = pack_decimal->>= p.liquidity.owner_unclaimed _ h5 in ground arith

-- The accounts of a pool: its manager, the token, where its tokens and fees go, the oracle's price, the
-- token of its shares, and where the shares go
abbrev pub keys : Pool → List Pubkey
keys p =
    p.pool_manager ∷ p.liquidity.mint_pubkey ∷ p.liquidity.supply_pubkey ∷ p.liquidity.fee_receiver
    ∷ p.liquidity.pyth_oracle_pubkey ∷ p.collateral.mint_pubkey ∷ p.collateral.supply_pubkey
    ∷ p.lottery.un_coll_supply_account ∷ []

-- Keys, cut to their 32 bytes
abbrev pub cut_keys : List Pubkey → List Pubkey
cut_keys [] = []
cut_keys (k ∷ ks) = cut 32 k ∷ cut_keys ks

cut_keys_twice : (ks : List Pubkey) → cut_keys (cut_keys ks) ≡ cut_keys ks
cut_keys_twice [] = refl
cut_keys_twice (k ∷ ks) = cc (cut-cut 32 k, cut_keys_twice ks)

-- Keys that have been cut are not cut any more.
pub cut_keys_done : (ks ls : List Pubkey) → ks ≡ cut_keys ls → cut_keys ks ≡ ks
cut_keys_done ks ls h = ap cut_keys h ∙ cut_keys_twice ls ∙ sym h

-- What is left of a pool that is packed and read.
pub record IsRepacked (p q : Pool) : Type 0 where
  pub version : q.version ≡ program_version
  pub backed : IsBacked q
  pub funds : q.liquidity.available_amount ≡ p.liquidity.available_amount
  pub keyed : keys q ≡ cut_keys (keys p)

cut_pool-IsRepacked :
    (p : Pool) → p.version ≡ program_version → IsBacked p → IsRepacked p (cut_pool p)
cut_pool-IsRepacked p v b =
    let amount = cut_lem 8 p.liquidity.available_amount (omega (arith, b.in_range)) in
    record {
      version = ground (arith, cut_lem 1 1 (omega arith));
      backed = record {
        lent = ground (arith, b.lent, cut_lem 16 0 (omega arith));
        claimed = ground (arith, b.claimed, cut_lem 16 0 (omega arith));
        base_rate = ground (arith, b.base_rate, cut_lem 16 wad (omega arith));
        shares = ground (arith, b.shares, amount);
        in_range = ground (arith, b.in_range, amount);
      };
      funds = amount;
      keyed = refl;
    }

pub unpack-pack_backed :
    (p : Pool) (output bytes : List ℕ)
    → p.version ≡ program_version
    → IsBacked p
    → length output ≡ reserve_len
    → pack_into_slice p output ≡ ok bytes
    → (q : Pool) × (unpack_from_slice bytes ≡ ok q) × (length bytes ≡ reserve_len) × IsRepacked p q
unfolding unpack_from_slice
unpack-pack_backed p output bytes v b size h =
    let same = pack_into_slice-fields p output bytes size h in
    let packed_size : length (write_fields (own_fields p) ++ drop 398 output) ≡ reserve_len =
      omega (
        arith,
        length-append {0} (write_fields (own_fields p)) (drop 398 output),
        length-write_fields (own_fields p),
        length-drop {0} 398 output,
      ) in
    (
      cut_pool p,
      rw (same, packed_size, array_refs-write_fields_cut (own_fields p) (drop 398 output))
          (read_cut p v),
      rw same packed_size,
      cut_pool-IsRepacked p v b,
    )
