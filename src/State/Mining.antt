-- ===== src/State/Mining.antt =====
-- `Mining` (src/state/mining.rs): the pool shares that one owner has not used as collateral, and the
-- rewards on them. A method that fails returns no state, since a caller drops its copy.
pub mod Validity
pub mod Pack
pub mod PackRoundTrip
use allwinprotocol.Base.{
  ℕ, suc, ◌-◌, Bool, true, false, not, Option, none, some, List, [], ◌∷◌, ◌++◌, leb, ◌==◌,
  if◌then◌else◌, length, set, remove, checked_add, checked_sub,
}
use allwinprotocol.Error.{
  Result, ok, fail, ok_or, index, math_overflow, mining_reserve_empty, invalid_mining_reserve,
  mining_volume_limit, ◌>>=◌,
}
use allwinprotocol.Math.Decimal
use allwinprotocol.Math.Decimal.{Decimal}
use allwinprotocol.State.Common.{Pubkey, default_key, program_version, uninitialized_version}
use allwinprotocol.State.Pool.{Pool}
use allwinprotocol.State.Positions.{position}

abbrev pub max_mining_volume : ℕ
max_mining_volume = 10

pub record MiningIndex : Type 0 where
  pub reserve : Pubkey
  pub un_coll_l_token_amount : ℕ
  pub index : Decimal

-- `MiningIndex::new`
unfoldable pub new_index : Pubkey → Decimal → MiningIndex
new_index reserve l_token_mining_index = record {
  reserve = reserve;
  un_coll_l_token_amount = 0;
  index = l_token_mining_index;
}

pub record Mining : Type 0 where
  pub version : ℕ
  pub owner : Pubkey
  pub pool_manager : Pubkey
  pub mining_indices : List MiningIndex
  pub unclaimed_mine : Decimal

-- `Default`
abbrev pub default : Mining
default = record {
  version = uninitialized_version;
  owner = default_key;
  pool_manager = default_key;
  mining_indices = [];
  unclaimed_mine = Decimal.zero;
}

pub record InitMiningParams : Type 0 where
  pub lending_market : Pubkey
  pub owner : Pubkey
  pub mining_indices : List MiningIndex

unfoldable pub init : Mining → InitMiningParams → Mining
init m params = record m {
  version = program_version;
  pool_manager = params.lending_market;
  owner = params.owner;
  unclaimed_mine = Decimal.zero;
  mining_indices = params.mining_indices;
}

unfoldable pub new : InitMiningParams → Mining
unfolding init
new params = init default params

unfoldable pub is_initialized : Mining → Bool
is_initialized m = not (m.version == uninitialized_version)

unfoldable pub refresh_unclaimed : Mining → ℕ → Pool → Result Mining
unfolding Decimal.try_sub Decimal.try_mul_u64 Decimal.try_add
refresh_unclaimed m at_index reserve = do
  mining_index ← index m.mining_indices at_index
  grown ← Decimal.try_sub reserve.lottery.l_token_mining_index mining_index.index
  mined ← Decimal.try_mul_u64 grown mining_index.un_coll_l_token_amount
  unclaimed ← Decimal.try_add m.unclaimed_mine mined
  ok (record m {
    unclaimed_mine = unclaimed;
    mining_indices =
        set m.mining_indices at_index
          (record mining_index { index = reserve.lottery.l_token_mining_index });
  })

-- `_find_index_in_mining_indices`
unfoldable pub find_index : Mining → Pubkey → Option ℕ
unfolding position
find_index m reserve = position (λ (x : MiningIndex). x.reserve) reserve m.mining_indices

unfoldable pub find_mining_index : Mining → Pubkey → Result ℕ
unfolding find_index
find_mining_index m reserve =
    if length m.mining_indices == 0
    then fail mining_reserve_empty
    else ok_or (find_index m reserve) invalid_mining_reserve

-- Returns the position, its index and the account.
unfoldable pub find_or_add_reserve_in_vec :
    Mining → Pubkey → Decimal → Result (MiningIndex × ℕ × Mining)
unfolding find_index new_index
find_or_add_reserve_in_vec m reserve l_token_mining_index = elim (find_index m reserve) [
  | some mining_index ↦ index m.mining_indices mining_index >>= λ found. ok (found, mining_index, m)
  | none ↦
      if leb max_mining_volume (length m.mining_indices)
      then fail mining_volume_limit
      else let added = new_index reserve l_token_mining_index in
        let indices = m.mining_indices ++ added ∷ [] in
        ok (added, length indices - 1, record m { mining_indices = indices })
]

unfoldable pub deposit : Mining → ℕ → ℕ → Result Mining
deposit m at_index amount = do
  mining_index ← index m.mining_indices at_index
  total ← ok_or (checked_add 64 mining_index.un_coll_l_token_amount amount) math_overflow
  ok (record m {
    mining_indices =
        set m.mining_indices at_index (record mining_index { un_coll_l_token_amount = total });
  })

unfoldable pub withdraw : Mining → ℕ → ℕ → Result Mining
withdraw m at_index amount = do
  mining_index ← index m.mining_indices at_index
  if amount == mining_index.un_coll_l_token_amount
      then ok (record m { mining_indices = remove m.mining_indices at_index })
      else do
        rest ← ok_or (checked_sub mining_index.un_coll_l_token_amount amount) math_overflow
        ok (record m {
          mining_indices =
              set m.mining_indices at_index (record mining_index { un_coll_l_token_amount = rest });
        })
