-- ===== src/State/Ticket/Balances.antt =====
-- A ticket as what it stands for: an amount of collateral for each pool.
use allwinprotocol.Base.{
  ℕ, zero, suc, ◌+◌, ◌-◌, ◌≤◌, ◌≡◌, ◌≢◌, refl, some, List, [], ◌∷◌, arith, ◌==◌, if◌then◌else◌,
  get_elem?, set, remove,
}
use allwinprotocol.Error.{ok}
use allwinprotocol.State.Common.{Pubkey}
use allwinprotocol.State.Positions.{IsAbsent, IsDistinct}
use allwinprotocol.State.Ticket
use allwinprotocol.State.Ticket.{Ticket, TicketCollateral}
use allwinprotocol.State.Ticket.Validity.{IsValid, reserve_of}

abbrev pub balance_in : Pubkey → List TicketCollateral → ℕ
balance_in k [] = 0
balance_in k (c ∷ cs) = if reserve_of c == k then c.deposited_amount else balance_in k cs

abbrev pub balance : Ticket → Pubkey → ℕ
balance t k = balance_in k t.deposits

pub balance_in-IsAbsent :
    (k : Pubkey) (cs : List TicketCollateral) → IsAbsent reserve_of k cs → balance_in k cs ≡ 0
balance_in-IsAbsent k [] a = refl
balance_in-IsAbsent k (c ∷ cs) a = ground (arith, balance_in-IsAbsent k cs a.1)

IsAbsent-ne :
    (k : Pubkey) (cs : List TicketCollateral) (i : ℕ) {c : TicketCollateral}
    → IsAbsent reserve_of k cs
    → get_elem? cs i ≡ some c
    → reserve_of c ≢ k
IsAbsent-ne k [] i a h = cc
IsAbsent-ne k (c ∷ cs) zero a h = ground arith
IsAbsent-ne k (c ∷ cs) (suc i) a h = IsAbsent-ne k cs i a.1 h

pub balance_in-get :
    (cs : List TicketCollateral) (i : ℕ) {c : TicketCollateral}
    → IsDistinct reserve_of cs
    → get_elem? cs i ≡ some c
    → balance_in (reserve_of c) cs ≡ c.deposited_amount
balance_in-get [] i d h = cc
balance_in-get (x ∷ cs) zero d h = ground arith
balance_in-get (x ∷ cs) (suc i) d h =
    ground (arith, balance_in-get cs i d.1 h, IsAbsent-ne (reserve_of x) cs i d.0 h)

pub balance_in-set :
    (k : Pubkey) (cs : List TicketCollateral) (i : ℕ) {c : TicketCollateral} (c' : TicketCollateral)
    → IsDistinct reserve_of cs
    → get_elem? cs i ≡ some c
    → reserve_of c' ≡ reserve_of c
    → balance_in k (set cs i c')
      ≡ (if reserve_of c == k then c'.deposited_amount else balance_in k cs)
balance_in-set k [] i c' d h e = cc
balance_in-set k (x ∷ cs) zero c' d h e = ground arith
balance_in-set k (x ∷ cs) (suc i) c' d h e =
    ground (arith, balance_in-set k cs i c' d.1 h e, IsAbsent-ne (reserve_of x) cs i d.0 h)

balance_in-remove :
    (k : Pubkey) (cs : List TicketCollateral) (i : ℕ) {c : TicketCollateral}
    → IsDistinct reserve_of cs
    → get_elem? cs i ≡ some c
    → balance_in k (remove cs i) ≡ (if reserve_of c == k then 0 else balance_in k cs)
balance_in-remove k [] i d h = cc
balance_in-remove k (x ∷ cs) zero d h = ground (arith, balance_in-IsAbsent k cs)
balance_in-remove k (x ∷ cs) (suc i) d h =
    ground (arith, balance_in-remove k cs i d.1 h, IsAbsent-ne (reserve_of x) cs i d.0 h)

-- A deposit at a position raises the balance of its pool by the amount, and no other balance.
pub deposit-balance :
    (t t' : Ticket) (i amount : ℕ) (c : TicketCollateral) (k : Pubkey)
    → IsValid t
    → get_elem? t.deposits i ≡ some c
    → Ticket.deposit t i amount ≡ ok t'
    → balance t' k ≡ (if reserve_of c == k then balance t k + amount else balance t k)
unfolding Ticket.deposit
deposit-balance t t' i amount c k v at_i e = ground (
  arith,
  balance_in-set k t.deposits i (record c { deposited_amount = c.deposited_amount + amount })
      v.distinct at_i,
  balance_in-get t.deposits i v.distinct at_i,
)

-- A withdrawal that succeeds, from a ticket of at most ten positions in distinct pools, is covered
-- by the balance of its pool and lowers it by the amount; no other balance changes. This holds too
-- where the position is removed and the others move up.
pub withdraw-balance :
    (t t' : Ticket) (i amount : ℕ) (c : TicketCollateral) (k : Pubkey)
    → IsValid t
    → get_elem? t.deposits i ≡ some c
    → Ticket.withdraw t amount i ≡ ok t'
    → (amount ≤ balance t (reserve_of c))
      × (balance t' k ≡ (if reserve_of c == k then balance t k - amount else balance t k))
unfolding Ticket.withdraw
withdraw-balance t t' i amount c k v at_i e = ground (
  arith,
  balance_in-set k t.deposits i (record c { deposited_amount = c.deposited_amount - amount })
      v.distinct at_i,
  balance_in-remove k t.deposits i v.distinct at_i,
  balance_in-get t.deposits i v.distinct at_i,
)
