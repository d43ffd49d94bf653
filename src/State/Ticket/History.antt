-- ===== src/State/Ticket/History.antt =====
-- A ticket over every sequence of its operations (src/state/ticket.rs).
use allwinprotocol.Base.{
  ℕ, ◌+◌, ◌≡◌, refl, some, List, [], ◌∷◌, ◌++◌, arith, ◌==◌, if◌then◌else◌, get_elem?, Option-cases,
  inl, inr,
}
use allwinprotocol.Error.{ok}
use allwinprotocol.Math.Decimal.{Decimal}
use allwinprotocol.State.Common.{Pubkey}
use allwinprotocol.State.Pool.{Pool}
use allwinprotocol.State.Ticket
use allwinprotocol.State.Ticket.{Ticket, TicketCollateral}
use allwinprotocol.State.Ticket.Validity.{
  IsValid, reserve_of, find_or_add-IsValid, deposit-IsValid, refresh_deposit_unclaimed-IsValid,
  withdraw-IsValid,
}
use allwinprotocol.State.Ticket.Balances.{
  balance, balance_in, balance_in-set, balance_in-get, deposit-balance, withdraw-balance,
}

-- What an amount that is put in or taken out at a position means for the pool `k`.
abbrev pub share_for : Pubkey → TicketCollateral → ℕ → ℕ
share_for k c amount = if reserve_of c == k then amount else 0

-- `History k t u put taken`: successful calls lead from the ticket `t` to `u`, and put `put` collateral
-- of the pool `k` in and took `taken` of it out, in all.
pub data History (k : Pubkey) (t : Ticket) : Ticket → ℕ → ℕ → Type 0 where
  start : History k t t 0 0
  refreshed :
      {u v : Ticket} {put taken : ℕ} (i : ℕ) (p : Pool)
      → History k t u put taken
      → Ticket.refresh_deposit_unclaimed u i p ≡ ok v
      → History k t v put taken
  looked_up :
      {u v : Ticket} {put taken : ℕ} (reserve : Pubkey) (mined : Decimal) {c : TicketCollateral}
      {i : ℕ}
      → History k t u put taken
      → Ticket.find_or_add_collateral_to_deposits u reserve mined ≡ ok (c, i, v)
      → History k t v put taken
  deposited :
      {u v : Ticket} {put taken : ℕ} (i amount : ℕ) {c : TicketCollateral}
      → History k t u put taken
      → get_elem? u.deposits i ≡ some c
      → Ticket.deposit u i amount ≡ ok v
      → History k t v (put + share_for k c amount) taken
  withdrawn :
      {u v : Ticket} {put taken : ℕ} (i amount : ℕ) {c : TicketCollateral}
      → History k t u put taken
      → get_elem? u.deposits i ≡ some c
      → Ticket.withdraw u amount i ≡ ok v
      → History k t v put (taken + share_for k c amount)

balance_in-push :
    (k : Pubkey) (cs : List TicketCollateral) (c : TicketCollateral)
    → c.deposited_amount ≡ 0
    → balance_in k (cs ++ c ∷ []) ≡ balance_in k cs
balance_in-push k [] c h = ground arith
balance_in-push k (x ∷ cs) c h = ground (arith, balance_in-push k cs c h)

refresh-balance :
    (k : Pubkey) (t t' : Ticket) (i : ℕ) (p : Pool)
    → IsValid t
    → Ticket.refresh_deposit_unclaimed t i p ≡ ok t'
    → balance t' k ≡ balance t k
unfolding Ticket.refresh_deposit_unclaimed
refresh-balance k t t' i p v e = elim (Option-cases (get_elem? t.deposits i)) [
  | inl missing ↦ ground arith
  | inr (c, at_i) ↦
      let c' : TicketCollateral = record c { index = p.lottery.l_token_mining_index } in
      ground (
        arith,
        balance_in-set k t.deposits i c' v.distinct at_i refl,
        balance_in-get t.deposits i v.distinct at_i,
      )
]

find_or_add-balance :
    (k : Pubkey) (t t' : Ticket) (reserve : Pubkey) (mined : Decimal) (c : TicketCollateral) (i : ℕ)
    → Ticket.find_or_add_collateral_to_deposits t reserve mined ≡ ok (c, i, t')
    → balance t' k ≡ balance t k
unfolding Ticket.find_or_add_collateral_to_deposits
find_or_add-balance k t t' reserve mined c i e =
    ground (arith, balance_in-push k t.deposits (Ticket.new_collateral reserve mined) refl)

withdraw-covered :
    (k : Pubkey) (t t' : Ticket) (i amount : ℕ) (c : TicketCollateral)
    → IsValid t
    → get_elem? t.deposits i ≡ some c
    → Ticket.withdraw t amount i ≡ ok t'
    → balance t' k + share_for k c amount ≡ balance t k
withdraw-covered k t t' i amount c v at_i e =
    let (covered, moved) = withdraw-balance t t' i amount c k v at_i e in ground arith

-- Start from a ticket of at most ten positions in distinct pools. However successful calls of
-- refresh, look-up, deposit and withdrawal follow each other, the ticket stays of that kind, and for
-- each pool the balance plus all that was taken out is the first balance plus all that was put in.
pub balance_accounted :
    (k : Pubkey) {t u : Ticket} {put taken : ℕ}
    → IsValid t
    → History k t u put taken
    → IsValid u × (balance u k + taken ≡ balance t k + put)
balance_accounted k v start = (v, omega arith)
balance_accounted k v (refreshed {u} {v = w} i p h e) =
    let (vu, books) = balance_accounted k v h in
    (refresh_deposit_unclaimed-IsValid u w i p vu e, omega (arith, refresh-balance k u w i p vu e))
balance_accounted k v (looked_up {u} {v = w} reserve mined {c} {i} h e) =
    let (vu, books) = balance_accounted k v h in
    (
      (find_or_add-IsValid u w reserve mined c i vu e).0,
      omega (arith, find_or_add-balance k u w reserve mined c i e),
    )
balance_accounted k v (deposited {u} {v = w} i amount {c} h at_i e) =
    let (vu, books) = balance_accounted k v h in
    (deposit-IsValid u w i amount vu e, ground (arith, deposit-balance u w i amount c k vu at_i e))
balance_accounted k v (withdrawn {u} {v = w} i amount {c} h at_i e) =
    let (vu, books) = balance_accounted k v h in
    (withdraw-IsValid u w amount i vu e, omega (arith, withdraw-covered k u w i amount c vu at_i e))
