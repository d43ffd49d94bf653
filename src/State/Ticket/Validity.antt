-- ===== src/State/Ticket/Validity.antt =====
-- The invariant of a ticket's positions, and what each operation does to the owner's balances.
use allwinprotocol.Base.{
  ℕ, ◌≤◌, ◌<◌, ◌≡◌, none, some, [], ◌∷◌, ◌++◌, arith, length, get_elem?, length-set,
  length-remove-le, length-append, Option-cases, get_elem?-lt, get_elem?-push, inl, inr,
}
use allwinprotocol.Error.{ok}
use allwinprotocol.Math.Decimal.{Decimal}
use allwinprotocol.State.Common.{Pubkey}
use allwinprotocol.State.Pool.{Pool}
use allwinprotocol.State.Positions.{
  IsAbsent, IsDistinct, position-none, position-some, IsDistinct-set, IsDistinct-remove,
  IsDistinct-push, position-push,
}
use allwinprotocol.State.Ticket
use allwinprotocol.State.Ticket.{Ticket, TicketCollateral, max_obligation_reserves}

abbrev pub reserve_of : TicketCollateral → Pubkey
reserve_of c = c.deposit_reserve

-- At most ten positions, each in a pool of its own.
pub record IsValid (t : Ticket) : Type 0 where
  pub distinct : IsDistinct reserve_of t.deposits
  pub bounded : length t.deposits ≤ max_obligation_reserves

find_collateral_lem :
    (t : Ticket) (reserve : Pubkey) (c : TicketCollateral) (i : ℕ)
    → Ticket.find_collateral_index t reserve ≡ some i
    → get_elem? t.deposits i ≡ some c
    → Ticket.find_collateral_in_deposits t reserve ≡ ok (c, i)
unfolding Ticket.find_collateral_in_deposits
find_collateral_lem t reserve c i found at_i = ground (arith, get_elem?-lt t.deposits i at_i)

-- The ticket with one more position at the end.
abbrev pushed : Ticket → TicketCollateral → Ticket
pushed t c = record t { deposits = t.deposits ++ c ∷ [] }

pushed-IsValid :
    (t : Ticket) (c : TicketCollateral)
    → IsValid t
    → length t.deposits < max_obligation_reserves
    → IsAbsent reserve_of c.deposit_reserve t.deposits
    → IsValid (pushed t c)
      × (get_elem? (pushed t c).deposits (length t.deposits) ≡ some c)
      × (Ticket.find_collateral_index (pushed t c) c.deposit_reserve ≡ some (length t.deposits))
unfolding Ticket.find_collateral_index
pushed-IsValid t c v room absent = (
  record {
    distinct = IsDistinct-push reserve_of t.deposits c v.distinct absent;
    bounded = omega (arith, length-append t.deposits (c ∷ []));
  },
  get_elem?-push t.deposits c,
  position-push reserve_of t.deposits c absent,
)

-- What a call that finds no position has done.
pub added :
    (t t' : Ticket) (reserve : Pubkey) (mined : Decimal) (c : TicketCollateral) (i : ℕ)
    → Ticket.find_collateral_index t reserve ≡ none
    → Ticket.find_or_add_collateral_to_deposits t reserve mined ≡ ok (c, i, t')
    → (t' ≡ pushed t c)
      × (c.deposit_reserve ≡ reserve)
      × (i ≡ length t.deposits)
      × (length t.deposits < max_obligation_reserves)
      × IsAbsent reserve_of c.deposit_reserve t.deposits
unfolding Ticket.find_or_add_collateral_to_deposits
added t t' reserve mined c i missing e = ground (
  arith,
  position-none reserve_of reserve t.deposits,
  length-append t.deposits (Ticket.new_collateral reserve mined ∷ []),
)

-- What a call that finds a position has done.
pub found_at :
    (t t' : Ticket) (reserve : Pubkey) (mined : Decimal) (c : TicketCollateral) (i j : ℕ)
    → Ticket.find_collateral_index t reserve ≡ some j
    → Ticket.find_or_add_collateral_to_deposits t reserve mined ≡ ok (c, i, t')
    → (t' ≡ t) × (i ≡ j) × (get_elem? t.deposits j ≡ some c)
unfolding Ticket.find_or_add_collateral_to_deposits
found_at t t' reserve mined c i j found e = ground arith

find_collateral_index-key :
    (t : Ticket) (reserve : Pubkey) (c : TicketCollateral) (j : ℕ)
    → Ticket.find_collateral_index t reserve ≡ some j
    → get_elem? t.deposits j ≡ some c
    → c.deposit_reserve ≡ reserve
unfolding Ticket.find_collateral_index
find_collateral_index-key t reserve c j found at_j =
    let (c', at_j', key) = position-some reserve_of reserve t.deposits j found in ground arith

-- A successful look-up of a pool, with a new position if there is none, keeps a ticket at no more
-- than ten positions in distinct pools; the position that it returns is the pool's own, stands at
-- the returned index, and is what the plain look-up finds from then on.
pub find_or_add-IsValid :
    (t t' : Ticket) (reserve : Pubkey) (mined : Decimal) (c : TicketCollateral) (i : ℕ)
    → IsValid t
    → Ticket.find_or_add_collateral_to_deposits t reserve mined ≡ ok (c, i, t')
    → IsValid t'
      × (c.deposit_reserve ≡ reserve)
      × (get_elem? t'.deposits i ≡ some c)
      × (Ticket.find_collateral_in_deposits t' reserve ≡ ok (c, i))
find_or_add-IsValid t t' reserve mined c i v e =
    elim (Option-cases (Ticket.find_collateral_index t reserve)) [
      | inl missing ↦
          let (same, key, last, room, absent) = added t t' reserve mined c i missing e in
          let (valid, at_i, found) = pushed-IsValid t c v room absent in
          rw (same, last)
            (valid, key, at_i, find_collateral_lem (pushed t c) reserve c _ (cc (key, found)) at_i)
      | inr (j, found) ↦
          let (same, here, at_j) = found_at t t' reserve mined c i j found e in
          rw (same, here)
            (
              v,
              find_collateral_index-key t reserve c j found at_j,
              at_j,
              find_collateral_lem t reserve c j found at_j,
            )
    ]

pub deposit-IsValid :
    (t t' : Ticket) (i amount : ℕ) → IsValid t → Ticket.deposit t i amount ≡ ok t' → IsValid t'
unfolding Ticket.deposit
deposit-IsValid t t' i amount v e = grind (arith, IsDistinct-set reserve_of, length-set)

pub refresh_deposit_unclaimed-IsValid :
    (t t' : Ticket) (i : ℕ) (p : Pool)
    → IsValid t
    → Ticket.refresh_deposit_unclaimed t i p ≡ ok t'
    → IsValid t'
unfolding Ticket.refresh_deposit_unclaimed
refresh_deposit_unclaimed-IsValid t t' i p v e =
    grind (arith, IsDistinct-set reserve_of, length-set)

pub withdraw-IsValid :
    (t t' : Ticket) (amount i : ℕ) → IsValid t → Ticket.withdraw t amount i ≡ ok t' → IsValid t'
unfolding Ticket.withdraw
withdraw-IsValid t t' amount i v e =
    grind
      (arith, IsDistinct-set reserve_of, IsDistinct-remove reserve_of, length-set, length-remove-le)
