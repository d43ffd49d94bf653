-- ===== src/Tests/Tickets.antt =====
-- The theorems on tickets and mining accounts at concrete inputs.
use allwinprotocol.Base.{
  ◌+◌, ◌-◌, ◌*◌, ◌≤◌, ◌≡◌, refl, some, [], ◌∷◌, arith, ◌==◌, if◌then◌else◌, get_elem?,
}
use allwinprotocol.Error.{ok}
use allwinprotocol.Math.Common.{wad}
use allwinprotocol.State.Ticket
use allwinprotocol.State.Ticket.{Ticket}
use allwinprotocol.State.Ticket.Validity.{IsValid, find_or_add-IsValid}
use allwinprotocol.State.Ticket.Balances.{balance, withdraw-balance}
use allwinprotocol.State.Ticket.History.{start, deposited, withdrawn, balance_accounted}
use allwinprotocol.State.Ticket.Rewards.{refresh_deposit_unclaimed_credit}
use allwinprotocol.State.Mining
use allwinprotocol.State.Mining.{Mining}
use allwinprotocol.State.Mining.Validity as MiningValidity
use allwinprotocol.Tests.Data.{pool, position_of, ticket, mining}

valid : IsValid ticket
valid = record { distinct = ground arith; bounded = omega arith }

-- A third pool is added at the end.
abbrev three : Ticket
three = record ticket { deposits = position_of 1 100 ∷ position_of 2 50 ∷ position_of 3 0 ∷ [] }

added :
    Ticket.find_or_add_collateral_to_deposits ticket 3 (4 * wad) ≡ ok (position_of 3 0, 2, three)
unfolding Ticket.find_or_add_collateral_to_deposits
added = refl

find_or_add-IsValid_example :
    IsValid three
    × ((position_of 3 0).deposit_reserve ≡ 3)
    × (get_elem? three.deposits 2 ≡ some (position_of 3 0))
    × (Ticket.find_collateral_in_deposits three 3 ≡ ok (position_of 3 0, 2))
find_or_add-IsValid_example =
    find_or_add-IsValid ticket three 3 (4 * wad) (position_of 3 0) 2 valid added

-- All of the first position is withdrawn, so that the last takes its place.
abbrev one : Ticket
one = record ticket { deposits = position_of 2 50 ∷ [] }

emptied : Ticket.withdraw ticket 100 0 ≡ ok one
unfolding Ticket.withdraw
emptied = refl

withdraw-balance_example :
    (100 ≤ balance ticket 1)
    × (balance one 2 ≡ (if 1 == 2 then balance ticket 2 - 100 else balance ticket 2))
withdraw-balance_example =
    withdraw-balance ticket one 0 100 (position_of 1 100) 2 valid refl emptied

abbrev more : Ticket
more = record ticket { deposits = position_of 1 100 ∷ position_of 2 80 ∷ [] }

filled : Ticket.deposit ticket 1 30 ≡ ok more
unfolding Ticket.deposit
filled = refl

abbrev less : Ticket
less = record ticket { deposits = position_of 1 100 ∷ position_of 2 60 ∷ [] }

lowered : Ticket.withdraw more 20 1 ≡ ok less
unfolding Ticket.withdraw
lowered = refl

balance_accounted_example : IsValid less × (60 + (0 + 20) ≡ 50 + (0 + 30))
balance_accounted_example = balance_accounted 2 valid (
    withdrawn 1 20 {c = position_of 2 80} (deposited 1 30 {c = position_of 2 50} start refl filled)
      refl lowered)

-- The index of the pool has grown from 4 to 5.
abbrev credited : Ticket
credited = record ticket {
  deposits = (record (position_of 1 100) { index = 5 * wad }) ∷ position_of 2 50 ∷ [];
  unclaimed_mine = 9 + 100 * wad;
}

credit : Ticket.refresh_deposit_unclaimed ticket 0 (pool 1000 1000) ≡ ok credited
unfolding Ticket.refresh_deposit_unclaimed
credit = refl

refresh_deposit_unclaimed_credit_example :
    (4 * wad ≤ 5 * wad)
    × (9 + 100 * wad ≡ 9 + (5 * wad - 4 * wad) * 100)
    × (get_elem? credited.deposits 0 ≡ some (record (position_of 1 100) { index = 5 * wad }))
refresh_deposit_unclaimed_credit_example =
    refresh_deposit_unclaimed_credit ticket credited 0 (pool 1000 1000) (position_of 1 100) refl
      credit

mining-IsValid : MiningValidity.IsValid mining
mining-IsValid = record { distinct = ground arith; bounded = omega arith }

abbrev mined : Mining
mined = record mining {
  mining_indices = (record { reserve = 1; un_coll_l_token_amount = 30; index = 5 * wad }) ∷ [];
  unclaimed_mine = 9 + 30 * wad;
}

mine : Mining.refresh_unclaimed mining 0 (pool 1000 1000) ≡ ok mined
unfolding Mining.refresh_unclaimed
mine = refl

abbrev left : Mining
left = record mined { mining_indices = [] }

taken : Mining.withdraw mined 0 30 ≡ ok left
unfolding Mining.withdraw
taken = refl

Reach-IsValid_example : MiningValidity.IsValid left × (9 ≤ 9 + 30 * wad)
Reach-IsValid_example =
    MiningValidity.Reach-IsValid
      (MiningValidity.next
        (MiningValidity.next MiningValidity.here (MiningValidity.refreshed 0 (pool 1000 1000) mine))
        (MiningValidity.withdrawn 0 30 taken))
      mining-IsValid
