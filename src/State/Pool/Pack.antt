-- ===== src/State/Pool/Pack.antt =====
-- The 646 bytes of a pool's account (src/state/pool.rs).
use allwinprotocol.Base.{
  ℕ, ◌≤◌, ◌≡◌, List, [], ◌∷◌, ◌++◌, arith, ltb, if◌then◌else◌, drop, length, Fits, length-append,
  length-drop,
}
use allwinprotocol.Error.{Result, ok, err, panic, invalid_account_data, ◌>>=◌}
use allwinprotocol.State.Common.{program_version}
use allwinprotocol.State.Codec.{
  array_refs, write_fields, pack_decimal, unpack_decimal, pack_bool, unpack_bool,
}
use allwinprotocol.State.Codec.RoundTrip.{
  array_refs-write_fields, length-write_fields, FieldsFit, values, unpack_bool-pack_bool,
  pack_bool-lt, pack_decimal-ok,
}
use allwinprotocol.State.Pool.{Pool}

abbrev pub reserve_len : ℕ
reserve_len = 646

-- The decimals come as their packed values.
abbrev fields : Pool → ℕ → ℕ → ℕ → ℕ → ℕ → ℕ → List (ℕ × ℕ)
fields p borrowed cumulative price unclaimed l_token_index borrow_index =
    (1, p.version)
    ∷ (8, p.last_update.slot)
    ∷ (1, pack_bool p.last_update.stale)
    ∷ (32, p.pool_manager)
    ∷ (32, p.liquidity.mint_pubkey)
    ∷ (1, p.liquidity.mint_decimals)
    ∷ (32, p.liquidity.supply_pubkey)
    ∷ (32, p.liquidity.fee_receiver)
    ∷ (1, pack_bool p.liquidity.use_pyth_oracle)
    ∷ (32, p.liquidity.pyth_oracle_pubkey)
    ∷ (8, p.liquidity.available_amount)
    ∷ (16, borrowed)
    ∷ (16, cumulative)
    ∷ (16, price)
    ∷ (16, unclaimed)
    ∷ (32, p.collateral.mint_pubkey)
    ∷ (8, p.collateral.mint_total_supply)
    ∷ (32, p.collateral.supply_pubkey)
    ∷ (1, pack_bool p.config.deposit_paused)
    ∷ (32, p.lottery.un_coll_supply_account)
    ∷ (16, l_token_index)
    ∷ (16, borrow_index)
    ∷ (8, p.lottery.total_mining_speed)
    ∷ (8, p.lottery.kink_util_rate)
    ∷ (1, pack_bool p.reentry_lock)
    ∷ []

-- The last 248 bytes are padding, and are left as they are.
unfoldable pub pack_into_slice : Pool → List ℕ → Result (List ℕ)
pack_into_slice p output = if ltb (length output) reserve_len then panic else do
  borrowed ← pack_decimal p.liquidity.borrowed_amount_wads
  cumulative ← pack_decimal p.liquidity.cumulative_borrow_rate_wads
  price ← pack_decimal p.liquidity.market_price
  l_token_index ← pack_decimal p.lottery.l_token_mining_index
  borrow_index ← pack_decimal p.lottery.borrow_mining_index
  unclaimed ← pack_decimal p.liquidity.owner_unclaimed
  ok (
      write_fields (fields p borrowed cumulative price unclaimed l_token_index borrow_index)
      ++ drop 398 output)

unfoldable pub from_fields : List ℕ → Result Pool
unfolding unpack_decimal
from_fields
      (version ∷ last_update_slot ∷ last_update_stale ∷ pool_manager ∷ liquidity_mint_pubkey
        ∷ liquidity_mint_decimals ∷ liquidity_supply_pubkey ∷ liquidity_fee_receiver
        ∷ liquidity_use_pyth_oracle ∷ liquidity_pyth_oracle_pubkey ∷ liquidity_available_amount
        ∷ liquidity_borrowed_amount_wads ∷ liquidity_cumulative_borrow_rate_wads
        ∷ liquidity_market_price ∷ owner_unclaimed ∷ collateral_mint_pubkey
        ∷ collateral_mint_total_supply ∷ collateral_supply_pubkey ∷ deposit_paused
        ∷ un_coll_supply_account ∷ l_token_mining_index ∷ borrow_mining_index ∷ total_mining_speed
        ∷ kink_util_rate ∷ reentry_lock ∷ []) =
    if ltb program_version version then err invalid_account_data else do
      stale ← unpack_bool last_update_stale
      use_pyth_oracle ← unpack_bool liquidity_use_pyth_oracle
      paused ← unpack_bool deposit_paused
      lock ← unpack_bool reentry_lock
      ok (record {
        version = version;
        last_update = record { slot = last_update_slot; stale = stale };
        pool_manager = pool_manager;
        liquidity = record {
          mint_pubkey = liquidity_mint_pubkey;
          mint_decimals = liquidity_mint_decimals;
          supply_pubkey = liquidity_supply_pubkey;
          fee_receiver = liquidity_fee_receiver;
          use_pyth_oracle = use_pyth_oracle;
          pyth_oracle_pubkey = liquidity_pyth_oracle_pubkey;
          available_amount = liquidity_available_amount;
          borrowed_amount_wads = unpack_decimal liquidity_borrowed_amount_wads;
          cumulative_borrow_rate_wads = unpack_decimal liquidity_cumulative_borrow_rate_wads;
          market_price = unpack_decimal liquidity_market_price;
          owner_unclaimed = unpack_decimal owner_unclaimed;
        };
        collateral = record {
          mint_pubkey = collateral_mint_pubkey;
          mint_total_supply = collateral_mint_total_supply;
          supply_pubkey = collateral_supply_pubkey;
        };
        config = record { deposit_paused = paused };
        lottery = record {
          un_coll_supply_account = un_coll_supply_account;
          l_token_mining_index = unpack_decimal l_token_mining_index;
          borrow_mining_index = unpack_decimal borrow_mining_index;
          total_mining_speed = total_mining_speed;
          kink_util_rate = kink_util_rate;
        };
        reentry_lock = lock;
      })
from_fields _ = panic

abbrev pub field_widths : List ℕ
field_widths =
    1 ∷ 8 ∷ 1 ∷ 32 ∷ 32 ∷ 1 ∷ 32 ∷ 32 ∷ 1 ∷ 32 ∷ 8 ∷ 16 ∷ 16 ∷ 16 ∷ 16 ∷ 32 ∷ 8 ∷ 32 ∷ 1 ∷ 32 ∷ 16
    ∷ 16 ∷ 8 ∷ 8 ∷ 1 ∷ []

unfoldable pub unpack_from_slice : List ℕ → Result Pool
unfolding from_fields
unpack_from_slice input =
    if ltb (length input) reserve_len then panic else from_fields (array_refs field_widths input)

-- Every field fits its bytes, and the version is one that this program reads. Decimals fit 128 bits,
-- though in memory they have 192.
pub record InRange (p : Pool) : Type 0 where
  pub version : p.version ≤ program_version
  pub slot : Fits 64 p.last_update.slot
  pub pool_manager : Fits 256 p.pool_manager
  pub mint_pubkey : Fits 256 p.liquidity.mint_pubkey
  pub mint_decimals : Fits 8 p.liquidity.mint_decimals
  pub supply_pubkey : Fits 256 p.liquidity.supply_pubkey
  pub fee_receiver : Fits 256 p.liquidity.fee_receiver
  pub pyth_oracle_pubkey : Fits 256 p.liquidity.pyth_oracle_pubkey
  pub available_amount : Fits 64 p.liquidity.available_amount
  pub borrowed_amount_wads : Fits 128 p.liquidity.borrowed_amount_wads
  pub cumulative_borrow_rate_wads : Fits 128 p.liquidity.cumulative_borrow_rate_wads
  pub market_price : Fits 128 p.liquidity.market_price
  pub owner_unclaimed : Fits 128 p.liquidity.owner_unclaimed
  pub collateral_mint : Fits 256 p.collateral.mint_pubkey
  pub mint_total_supply : Fits 64 p.collateral.mint_total_supply
  pub collateral_supply : Fits 256 p.collateral.supply_pubkey
  pub un_coll_supply_account : Fits 256 p.lottery.un_coll_supply_account
  pub l_token_mining_index : Fits 128 p.lottery.l_token_mining_index
  pub borrow_mining_index : Fits 128 p.lottery.borrow_mining_index
  pub total_mining_speed : Fits 64 p.lottery.total_mining_speed
  pub kink_util_rate : Fits 64 p.lottery.kink_util_rate

abbrev pub own_fields : Pool → List (ℕ × ℕ)
own_fields p =
    fields p p.liquidity.borrowed_amount_wads p.liquidity.cumulative_borrow_rate_wads
      p.liquidity.market_price p.liquidity.owner_unclaimed p.lottery.l_token_mining_index
      p.lottery.borrow_mining_index

module _ (p : Pool) (output : List ℕ) (r : InRange p) (size : length output ≡ reserve_len) where
  packed_size : length (write_fields (own_fields p) ++ drop 398 output) ≡ reserve_len
  packed_size = omega (
    arith,
    length-append (write_fields (own_fields p)) (drop 398 output),
    length-write_fields (own_fields p),
    length-drop 398 output,
  )

  packed_fields : pack_into_slice p output ≡ ok (write_fields (own_fields p) ++ drop 398 output)
  unfolding pack_into_slice
  packed_fields = rw (
    size,
    pack_decimal-ok p.liquidity.borrowed_amount_wads r.borrowed_amount_wads,
    pack_decimal-ok p.liquidity.cumulative_borrow_rate_wads r.cumulative_borrow_rate_wads,
    pack_decimal-ok p.liquidity.market_price r.market_price,
    pack_decimal-ok p.lottery.l_token_mining_index r.l_token_mining_index,
    pack_decimal-ok p.lottery.borrow_mining_index r.borrow_mining_index,
    pack_decimal-ok p.liquidity.owner_unclaimed r.owner_unclaimed,
  )

  fit : FieldsFit (own_fields p)
  fit = omega (
    arith,
    pack_bool-lt p.last_update.stale,
    pack_bool-lt p.liquidity.use_pyth_oracle,
    pack_bool-lt p.config.deposit_paused,
    pack_bool-lt p.reentry_lock,
  )

  read_back : from_fields (values (own_fields p)) ≡ ok p
  unfolding from_fields
  read_back = ground (
    arith,
    unpack_bool-pack_bool p.last_update.stale,
    unpack_bool-pack_bool p.liquidity.use_pyth_oracle,
    unpack_bool-pack_bool p.config.deposit_paused,
    unpack_bool-pack_bool p.reentry_lock,
  )

  -- A pool whose fields fit their bytes, and whose version this program reads, is packed into an
  -- account of its size and read back unchanged, and the packed account keeps its size.
  pub unpack-pack_pool :
      (bytes : List ℕ) × (pack_into_slice p output ≡ ok bytes)
      × (length bytes ≡ reserve_len)
      × (unpack_from_slice bytes ≡ ok p)
  unfolding unpack_from_slice
  unpack-pack_pool = (
    write_fields (own_fields p) ++ drop 398 output,
    packed_fields,
    packed_size,
    rw (packed_size, array_refs-write_fields (own_fields p) (drop 398 output) fit) read_back,
  )
