-- ===== src/Processor/RefreshTicket/Holdings.antt =====
-- What positions are worth in all, and positions that hold the same.
use allwinprotocol.Base.{
  ℕ, zero, suc, ◌+◌, ◌≡◌, refl, some, List, [], ◌∷◌, arith, length, get_elem?, set, take,
}
use allwinprotocol.State.Ticket.{TicketCollateral}

abbrev pub total_value : List TicketCollateral → ℕ
total_value [] = 0
total_value (c ∷ cs) = c.market_value + total_value cs

-- The same pools and the same amounts, in the same places
abbrev pub SameHoldings : List TicketCollateral → List TicketCollateral → Type 0
SameHoldings [] [] = Unit {0}
SameHoldings (c ∷ cs) (d ∷ ds) =
    (c.deposit_reserve ≡ d.deposit_reserve)
    × (c.deposited_amount ≡ d.deposited_amount)
    × SameHoldings cs ds
SameHoldings _ _ = ⊥

pub SameHoldings-refl : (cs : List TicketCollateral) → SameHoldings cs cs
SameHoldings-refl [] = tt
SameHoldings-refl (c ∷ cs) = (refl, refl, SameHoldings-refl cs)

pub SameHoldings-set :
    (cs : List TicketCollateral) (i : ℕ) {c : TicketCollateral} (c' : TicketCollateral)
    → get_elem? cs i ≡ some c
    → c'.deposit_reserve ≡ c.deposit_reserve
    → c'.deposited_amount ≡ c.deposited_amount
    → SameHoldings cs (set cs i c')
SameHoldings-set [] i c' h k a = tt
SameHoldings-set (x ∷ cs) zero c' h k a = (ground arith, ground arith, SameHoldings-refl cs)
SameHoldings-set (x ∷ cs) (suc i) c' h k a = (refl, refl, SameHoldings-set cs i c' h k a)

pub SameHoldings-trans :
    (bs cs ds : List TicketCollateral)
    → SameHoldings bs cs
    → SameHoldings cs ds
    → SameHoldings bs ds
SameHoldings-trans [] [] ds h k = k
SameHoldings-trans [] (c ∷ cs) ds h k = absurd h
SameHoldings-trans (b ∷ bs) [] ds h k = absurd h
SameHoldings-trans (b ∷ bs) (c ∷ cs) [] h k = absurd k
SameHoldings-trans (b ∷ bs) (c ∷ cs) (d ∷ ds) (h0, h1, h) (k0, k1, k) =
    (cc (h0, k0), cc (h1, k1), SameHoldings-trans bs cs ds h k)

pub total_value-take-set :
    (cs : List TicketCollateral) (i : ℕ) {c : TicketCollateral} (c' : TicketCollateral)
    → get_elem? cs i ≡ some c
    → total_value (take (suc i) (set cs i c')) ≡ total_value (take i cs) + c'.market_value
total_value-take-set [] i c' h = cc
total_value-take-set (x ∷ cs) zero c' h = omega arith
total_value-take-set (x ∷ cs) (suc i) c' h = omega (arith, total_value-take-set cs i c' h)

pub total_value-take_all :
    (cs : List TicketCollateral) → total_value (take (length cs) cs) ≡ total_value cs
total_value-take_all [] = refl
total_value-take_all (c ∷ cs) = omega (arith, total_value-take_all cs)
