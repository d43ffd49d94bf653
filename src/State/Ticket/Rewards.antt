-- ===== src/State/Ticket/Rewards.antt =====
-- The rewards that a ticket collects from a pool (src/state/ticket.rs).
use allwinprotocol.Base.{ℕ, ◌+◌, ◌-◌, ◌*◌, ◌≤◌, ◌≡◌, some, arith, get_elem?, get_elem?-set_self}
use allwinprotocol.Error.{ok}
use allwinprotocol.State.Pool.{Pool}
use allwinprotocol.State.Ticket
use allwinprotocol.State.Ticket.{Ticket, TicketCollateral}

-- A refresh that succeeds credits the growth of the pool's index since the position's last refresh,
-- once for each share of the position, and moves the position's index up to the pool's, which is not
-- below it.
pub refresh_deposit_unclaimed_credit :
    (t t' : Ticket) (i : ℕ) (p : Pool) (c : TicketCollateral)
    → get_elem? t.deposits i ≡ some c
    → Ticket.refresh_deposit_unclaimed t i p ≡ ok t'
    → (c.index ≤ p.lottery.l_token_mining_index)
      × (t'.unclaimed_mine
          ≡ t.unclaimed_mine + (p.lottery.l_token_mining_index - c.index) * c.deposited_amount)
      × (get_elem? t'.deposits i ≡ some (record c { index = p.lottery.l_token_mining_index }))
unfolding Ticket.refresh_deposit_unclaimed
refresh_deposit_unclaimed_credit t t' i p c at_i e = ground (
  arith,
  get_elem?-set_self t.deposits i (record c { index = p.lottery.l_token_mining_index }) at_i,
)
