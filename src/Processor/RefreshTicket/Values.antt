-- ===== src/Processor/RefreshTicket/Values.antt =====
-- What a refresh makes of a ticket's values, rewards and balances (src/processor.rs).
use allwinprotocol.Base.{
  ℕ, zero, suc, ◌+◌, ◌≤◌, ◌≡◌, refl, false, not, some, List, ◌∷◌, arith, ◌==◌, length, get_elem?,
  set, take, length-set, get_elem?-set_self, set-set, ◌∙◌,
}
use allwinprotocol.Error.{ok, >>=-eq-ok, invalid_account_input, invalid_account_owner}
use allwinprotocol.Math.Decimal
use allwinprotocol.Math.Decimal.{Decimal}
use allwinprotocol.State.Common.{Pubkey, Slot}
use allwinprotocol.State.Pool.{Pool}
use allwinprotocol.State.Ticket
use allwinprotocol.State.Ticket.{Ticket, TicketCollateral}
use allwinprotocol.Processor.Runtime.{Ledger, AccountInfo, Runtime}
use allwinprotocol.Processor.Accounts.{next_account_info}
use allwinprotocol.Processor.Exchange.{reject_if-eq-ok}
use allwinprotocol.State.LastUpdate
use allwinprotocol.Processor.RefreshTicket.Holdings.{
  total_value, SameHoldings, SameHoldings-refl, SameHoldings-set, SameHoldings-trans,
  total_value-take-set, total_value-take_all,
}
use allwinprotocol.Processor.RefreshTicket.{
  check_position, market_value_of, revalue_position, refresh_position, refresh_positions,
  revalue_ticket, unpack_ticket, pack_ticket, process_refresh_ticket,
}

try_add_eq : (a b c : Decimal) → Decimal.try_add a b ≡ ok c → c ≡ a + b
unfolding Decimal.try_add
try_add_eq a b c h = ground arith

-- The growth of the index is credited, and nothing else changes in the holdings.
credited :
    (t t' : Ticket) (pos : ℕ) (p : Pool) (c : TicketCollateral)
    → get_elem? t.deposits pos ≡ some c
    → Ticket.refresh_deposit_unclaimed t pos p ≡ ok t'
    → (t'.deposits ≡ set t.deposits pos (record c { index = p.lottery.l_token_mining_index }))
      × (t.unclaimed_mine ≤ t'.unclaimed_mine)
unfolding Ticket.refresh_deposit_unclaimed
credited t t' pos p c at_pos h = ground arith

module _ (rt : Runtime) (program_id : Pubkey) (slot : Slot) (ledger : Ledger) where
  check_position-get :
      (pos : ℕ) (info : AccountInfo) (t : Ticket) (c : TicketCollateral) (p : Pool)
      → check_position rt program_id slot ledger pos info t ≡ ok (c, p)
      → get_elem? t.deposits pos ≡ some c
  unfolding check_position
  check_position-get pos info t c p h = ground arith

  revalued :
      (pos : ℕ) (c : TicketCollateral) (p : Pool) (t t' : Ticket) (value value' : Decimal)
      → get_elem? t.deposits pos ≡ some c
      → revalue_position rt pos c p t value ≡ ok (t', value')
      → (c' : TicketCollateral) × (t'.deposits ≡ set t.deposits pos c')
        × (c'.deposit_reserve ≡ c.deposit_reserve)
        × (c'.deposited_amount ≡ c.deposited_amount)
        × (value' ≡ value + c'.market_value)
        × (t.unclaimed_mine ≤ t'.unclaimed_mine)
  unfolding revalue_position
  revalued pos c p t t' value value' at_pos h =
      let (market_value, valued, h2) = >>=-eq-ok (market_value_of rt c p) _ h in
      let (sum, added, h3) = >>=-eq-ok (Decimal.try_add value market_value) _ h2 in
      let c1 : TicketCollateral = record c { market_value = market_value } in
      let t1 : Ticket = record t { deposits = set t.deposits pos c1 } in
      let (t2, refreshed, made) = >>=-eq-ok (Ticket.refresh_deposit_unclaimed t1 pos p) _ h3 in
      let c2 : TicketCollateral = record c1 { index = p.lottery.l_token_mining_index } in
      let (deposits, grown) =
        credited t1 t2 pos p c1 (get_elem?-set_self t.deposits pos c1 at_pos) refreshed in
      let twice = set-set t.deposits pos c1 c2 in
      let total = try_add_eq value market_value sum added in
      (c2, ground arith, refl, refl, ground arith, ground arith)

  -- One turn of the loop
  turn :
      (pos : ℕ) (info : AccountInfo) (t t' : Ticket) (value value' : Decimal)
      → refresh_position rt program_id slot ledger pos info t value ≡ ok (t', value')
      → value ≡ total_value (take pos t.deposits)
      → (value' ≡ total_value (take (suc pos) t'.deposits))
        × (length t'.deposits ≡ length t.deposits)
        × SameHoldings t.deposits t'.deposits
        × (t.unclaimed_mine ≤ t'.unclaimed_mine)
  unfolding refresh_position
  turn pos info t t' value value' h so_far =
      let ((c, p), checked, h1) =
        >>=-eq-ok (check_position rt program_id slot ledger pos info t) _ h in
      let at_pos = check_position-get pos info t c p checked in
      let (c', deposits, key, amount, more, grown) = revalued pos c p t t' value value' at_pos h1 in
      let sum = total_value-take-set t.deposits pos c' at_pos in
      let same = SameHoldings-set t.deposits pos c' at_pos key amount in
      rw deposits (cc (sum, so_far, more), length-set t.deposits pos c', same, grown)

  loop :
      (n pos : ℕ) (accounts rest : List AccountInfo) (t t' : Ticket) (value value' : Decimal)
      → refresh_positions rt program_id slot ledger n pos accounts t value ≡ ok (rest, t', value')
      → value ≡ total_value (take pos t.deposits)
      → (value' ≡ total_value (take (pos + n) t'.deposits))
        × (length t'.deposits ≡ length t.deposits)
        × SameHoldings t.deposits t'.deposits
        × (t.unclaimed_mine ≤ t'.unclaimed_mine)
  unfolding refresh_positions
  loop zero pos accounts rest t t' value value' h so_far =
      let same_t : t ≡ t' = ground arith in
      let same_value : value ≡ value' = ground arith in
      let end : pos + 0 ≡ pos = omega arith in
      rw (← same_t, ← same_value) ((rw end so_far), refl, SameHoldings-refl t.deposits, omega arith)
  loop (suc n) pos accounts rest t t' value value' h so_far =
      let ((info, others), next, h1) = >>=-eq-ok (next_account_info rt accounts) _ h in
      let ((t1, value1), refreshed, h2) =
        >>=-eq-ok (refresh_position rt program_id slot ledger pos info t value) _ h1 in
      let (sum, long, same, grown) = turn pos info t t1 value value1 refreshed so_far in
      let (sum', long', same', grown') = loop n (suc pos) others rest t1 t' value1 value' h2 sum in
      let end : pos + suc n ≡ suc pos + n = omega arith in
      (
        (rw end sum'),
        long' ∙ long,
        SameHoldings-trans t.deposits t1.deposits t'.deposits same same',
        omega arith,
      )

-- How a ticket is stored after a refresh in a slot, with the values and rewards of now
pub record IsRevalued (rt : Runtime) (slot : Slot) (key : Pubkey) (before : Ticket)
    (ledger ledger' : Ledger) : Type 0 where
  pub after : Ticket
  pub stored : pack_ticket rt after key ledger ≡ ok ledger'
  pub fresh : after.last_update ≡ record { slot = slot; stale = false }
  pub valued : after.deposited_value ≡ total_value after.deposits
  pub held : SameHoldings before.deposits after.deposits
  pub rewarded : before.unclaimed_mine ≤ after.unclaimed_mine

revalue_ticket-IsRevalued :
    (rt : Runtime) (program_id : Pubkey) (slot : Slot) (key : Pubkey) (accounts : List AccountInfo)
    (t : Ticket) (ledger ledger' : Ledger)
    → revalue_ticket rt program_id slot key accounts t ledger ≡ ok ledger'
    → IsRevalued rt slot key t ledger ledger'
unfolding revalue_ticket LastUpdate.update_slot
revalue_ticket-IsRevalued rt program_id slot key accounts t ledger ledger' h =
    let ((rest, t', value), turns, h1) =
      >>=-eq-ok
        (refresh_positions rt program_id slot ledger (length t.deposits) 0 accounts t Decimal.zero)
        _ h in
    let (none_left, stored) = reject_if-eq-ok (not (length rest == 0)) invalid_account_input _ h1 in
    let (sum, long, same, grown) =
      loop rt program_id slot ledger (length t.deposits) 0 accounts rest t t' Decimal.zero value
        turns refl in
    let all = total_value-take_all t'.deposits in
    let count : 0 + length t.deposits ≡ length t'.deposits = omega arith in
    record {
      after = record t' {
        deposited_value = value;
        last_update = record { slot = slot; stale = false };
      };
      stored = stored;
      fresh = refl;
      valued = (rw count at sum) ∙ all;
      held = same;
      rewarded = grown;
    }

-- A refresh of a ticket that succeeds has read the ticket from an account of the program. The ticket
-- that it stores holds the same amounts in the same pools, in the same order; its deposited value is
-- the sum of the values of its positions, its unclaimed rewards are not less than before, and it is
-- fresh in the slot of the clock.
pub process_refresh_ticket-IsRevalued :
    (rt : Runtime) (program_id : Pubkey) (ticket clock : AccountInfo) (pools : List AccountInfo)
    (ledger ledger' : Ledger)
    → process_refresh_ticket rt program_id (ticket ∷ clock ∷ pools) ledger ≡ ok ledger'
    → (slot : Slot) × (before : Ticket) × (rt.clock_slot clock ledger ≡ ok slot)
      × (unpack_ticket rt ledger ticket.key ≡ ok before)
      × ((ledger ticket.key).owner ≡ program_id)
      × IsRevalued rt slot ticket.key before ledger ledger'
unfolding process_refresh_ticket
process_refresh_ticket-IsRevalued rt program_id ticket clock pools ledger ledger' h =
    let (slot, now, h1) = >>=-eq-ok (rt.clock_slot clock ledger) _ h in
    let (t, read, h2) = >>=-eq-ok (unpack_ticket rt ledger ticket.key) _ h1 in
    let (owned, h3) =
      reject_if-eq-ok (not ((ledger ticket.key).owner == program_id)) invalid_account_owner _ h2 in
    (
      slot,
      t,
      now,
      read,
      ground arith,
      revalue_ticket-IsRevalued rt program_id slot ticket.key pools t ledger ledger' h3,
    )
