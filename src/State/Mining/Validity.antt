-- ===== src/State/Mining/Validity.antt =====
-- The invariant of a mining account, over every sequence of its operations (src/state/mining.rs).
use allwinprotocol.Base.{
  ℕ, ◌≤◌, ◌≡◌, [], ◌∷◌, arith, length, length-set, length-remove-le, length-append,
}
use allwinprotocol.Error.{ok}
use allwinprotocol.Math.Decimal.{Decimal}
use allwinprotocol.State.Common.{Pubkey}
use allwinprotocol.State.Pool.{Pool}
use allwinprotocol.State.Positions.{
  IsDistinct, position-none, IsDistinct-set, IsDistinct-remove, IsDistinct-push,
}
use allwinprotocol.State.Mining
use allwinprotocol.State.Mining.{Mining, MiningIndex, InitMiningParams, max_mining_volume}

abbrev pub reserve_of : MiningIndex → Pubkey
reserve_of x = x.reserve

-- At most ten positions, each in a pool of its own.
pub record IsValid (m : Mining) : Type 0 where
  pub distinct : IsDistinct reserve_of m.mining_indices
  pub bounded : length m.mining_indices ≤ max_mining_volume

-- One successful call on the account.
pub data Step (m : Mining) (m' : Mining) : Type 0 where
  refreshed : (i : ℕ) (p : Pool) → Mining.refresh_unclaimed m i p ≡ ok m' → Step m m'
  looked_up :
      (reserve : Pubkey) (mined : Decimal) (x : MiningIndex) (i : ℕ)
      → Mining.find_or_add_reserve_in_vec m reserve mined ≡ ok (x, i, m')
      → Step m m'
  deposited : (i amount : ℕ) → Mining.deposit m i amount ≡ ok m' → Step m m'
  withdrawn : (i amount : ℕ) → Mining.withdraw m i amount ≡ ok m' → Step m m'

pub data Reach (m : Mining) : Mining → Type 0 where
  here : Reach m m
  next : {n k : Mining} → Reach m n → Step n k → Reach m k

refresh_unclaimed-IsValid :
    (m m' : Mining) (i : ℕ) (p : Pool)
    → IsValid m
    → Mining.refresh_unclaimed m i p ≡ ok m'
    → IsValid m' × (m.unclaimed_mine ≤ m'.unclaimed_mine)
unfolding Mining.refresh_unclaimed
refresh_unclaimed-IsValid m m' i p v e = grind (arith, IsDistinct-set reserve_of, length-set)

find_or_add-IsValid :
    (m m' : Mining) (reserve : Pubkey) (mined : Decimal) (x : MiningIndex) (i : ℕ)
    → IsValid m
    → Mining.find_or_add_reserve_in_vec m reserve mined ≡ ok (x, i, m')
    → IsValid m' × (m.unclaimed_mine ≤ m'.unclaimed_mine)
unfolding Mining.find_or_add_reserve_in_vec
find_or_add-IsValid m m' reserve mined x i v e =
    let added = Mining.new_index reserve mined in
    ground (
      arith,
      position-none reserve_of reserve m.mining_indices,
      IsDistinct-push reserve_of m.mining_indices added v.distinct,
      length-append m.mining_indices (added ∷ []),
    )

deposit-IsValid :
    (m m' : Mining) (i amount : ℕ)
    → IsValid m
    → Mining.deposit m i amount ≡ ok m'
    → IsValid m' × (m.unclaimed_mine ≤ m'.unclaimed_mine)
unfolding Mining.deposit
deposit-IsValid m m' i amount v e = grind (arith, IsDistinct-set reserve_of, length-set)

withdraw-IsValid :
    (m m' : Mining) (i amount : ℕ)
    → IsValid m
    → Mining.withdraw m i amount ≡ ok m'
    → IsValid m' × (m.unclaimed_mine ≤ m'.unclaimed_mine)
unfolding Mining.withdraw
withdraw-IsValid m m' i amount v e =
    grind
      (arith, IsDistinct-set reserve_of, IsDistinct-remove reserve_of, length-set, length-remove-le)

Step-IsValid :
    {m m' : Mining} → Step m m' → IsValid m → IsValid m' × (m.unclaimed_mine ≤ m'.unclaimed_mine)
Step-IsValid {m} {m'} (refreshed i p e) v = refresh_unclaimed-IsValid m m' i p v e
Step-IsValid {m} {m'} (looked_up reserve mined x i e) v =
    find_or_add-IsValid m m' reserve mined x i v e
Step-IsValid {m} {m'} (deposited i amount e) v = deposit-IsValid m m' i amount v e
Step-IsValid {m} {m'} (withdrawn i amount e) v = withdraw-IsValid m m' i amount v e

-- Start from a mining account of at most ten positions in distinct pools. However successful calls
-- of refresh, look-up, deposit and withdrawal follow each other, the account stays of that kind, and
-- its unclaimed rewards are never less than at the start.
pub Reach-IsValid :
    {m m' : Mining} → Reach m m' → IsValid m → IsValid m' × (m.unclaimed_mine ≤ m'.unclaimed_mine)
Reach-IsValid here v = (v, omega arith)
Reach-IsValid (next r s) v =
    let (v', grown) = Reach-IsValid r v in let (v'', more) = Step-IsValid s v' in (v'', omega arith)
