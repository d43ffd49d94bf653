-- ===== src/State/Ticket.antt =====
-- `Ticket` (src/state/ticket.rs): the collateral that one owner keeps in up to ten pools, and the
-- rewards on it. A method that fails returns no state, since its callers drop their copy.
pub mod Validity
pub mod Rewards
pub mod Balances
pub mod History
pub mod Pack
pub mod PackRoundTrip
pub mod PackLength
use allwinprotocol.Base.{
  ℕ, suc, ◌-◌, Bool, true, false, not, Option, none, some, List, [], ◌∷◌, ◌++◌, ltb, leb, ◌==◌,
  if◌then◌else◌, length, set, remove, checked_add, checked_sub,
}
use allwinprotocol.Error.{
  Result, ok, fail, ok_or, index, math_overflow, obligation_deposits_empty,
  invalid_obligation_collateral, obligation_reserve_limit, negative_interest_rate, ◌>>=◌,
}
use allwinprotocol.Math.Rate
use allwinprotocol.Math.Decimal
use allwinprotocol.Math.Decimal.{Decimal}
use allwinprotocol.State.Common.{Pubkey, default_key, Slot, program_version, uninitialized_version}
use allwinprotocol.State.LastUpdate
use allwinprotocol.State.LastUpdate.{LastUpdate}
use allwinprotocol.State.Pool.{Pool}
use allwinprotocol.State.Positions.{position}

abbrev pub max_obligation_reserves : ℕ
max_obligation_reserves = 10

pub record TicketCollateral : Type 0 where
  pub index : Decimal
  pub deposit_reserve : Pubkey
  pub deposited_amount : ℕ
  pub market_value : Decimal

-- `TicketCollateral::new`, `deposit` and `withdraw`
unfoldable pub new_collateral : Pubkey → Decimal → TicketCollateral
new_collateral deposit_reserve l_token_mining_index = record {
  index = l_token_mining_index;
  deposit_reserve = deposit_reserve;
  deposited_amount = 0;
  market_value = Decimal.zero;
}

unfoldable pub deposit_collateral : TicketCollateral → ℕ → Result TicketCollateral
deposit_collateral c collateral_amount = do
  amount ← ok_or (checked_add 64 c.deposited_amount collateral_amount) math_overflow
  ok (record c { deposited_amount = amount })

unfoldable pub withdraw_collateral : TicketCollateral → ℕ → Result TicketCollateral
withdraw_collateral c collateral_amount = do
  amount ← ok_or (checked_sub c.deposited_amount collateral_amount) math_overflow
  ok (record c { deposited_amount = amount })

pub record Ticket : Type 0 where
  pub version : ℕ
  pub last_update : LastUpdate
  pub pool_manager : Pubkey
  pub owner : Pubkey
  pub deposits : List TicketCollateral
  pub deposited_value : Decimal
  pub unclaimed_mine : Decimal

-- `Default`
abbrev pub default : Ticket
default = record {
  version = uninitialized_version;
  last_update = LastUpdate.default;
  pool_manager = default_key;
  owner = default_key;
  deposits = [];
  deposited_value = Decimal.zero;
  unclaimed_mine = Decimal.zero;
}

pub record InitTicketParams : Type 0 where
  pub current_slot : Slot
  pub pool_manager : Pubkey
  pub owner : Pubkey
  pub deposits : List TicketCollateral

-- `init` keeps the deposited value and the rewards of `self`.
unfoldable pub init : Ticket → InitTicketParams → Ticket
unfolding LastUpdate.new
init t params = record t {
  version = program_version;
  last_update = LastUpdate.new params.current_slot;
  pool_manager = params.pool_manager;
  owner = params.owner;
  deposits = params.deposits;
}

unfoldable pub new : InitTicketParams → Ticket
unfolding init
new params = init default params

unfoldable pub is_initialized : Ticket → Bool
is_initialized t = not (t.version == uninitialized_version)

unfoldable pub refresh_deposit_unclaimed : Ticket → ℕ → Pool → Result Ticket
unfolding Decimal.try_sub Decimal.try_mul_u64 Decimal.try_add
refresh_deposit_unclaimed t liquidity_index reserve = do
  liquidity ← index t.deposits liquidity_index
  grown ← Decimal.try_sub reserve.lottery.l_token_mining_index liquidity.index
  mined ← Decimal.try_mul_u64 grown liquidity.deposited_amount
  unclaimed ← Decimal.try_add t.unclaimed_mine mined
  ok (record t {
    unclaimed_mine = unclaimed;
    deposits =
        set t.deposits liquidity_index
          (record liquidity { index = reserve.lottery.l_token_mining_index });
  })

unfoldable pub deposit : Ticket → ℕ → ℕ → Result Ticket
unfolding deposit_collateral
deposit t at_index collateral_amount = do
  liquidity ← index t.deposits at_index
  liquidity' ← deposit_collateral liquidity collateral_amount
  ok (record t { deposits = set t.deposits at_index liquidity' })

unfoldable pub withdraw : Ticket → ℕ → ℕ → Result Ticket
unfolding withdraw_collateral
withdraw t withdraw_amount collateral_index = do
  collateral ← index t.deposits collateral_index
  if withdraw_amount == collateral.deposited_amount
      then ok (record t { deposits = remove t.deposits collateral_index })
      else do
        collateral' ← withdraw_collateral collateral withdraw_amount
        ok (record t { deposits = set t.deposits collateral_index collateral' })

-- `_find_collateral_index_in_deposits`
unfoldable pub find_collateral_index : Ticket → Pubkey → Option ℕ
unfolding position
find_collateral_index t deposit_reserve =
    position (λ (c : TicketCollateral). c.deposit_reserve) deposit_reserve t.deposits

unfoldable pub find_collateral_in_deposits : Ticket → Pubkey → Result (TicketCollateral × ℕ)
unfolding find_collateral_index
find_collateral_in_deposits t deposit_reserve =
    if length t.deposits == 0 then fail obligation_deposits_empty else do
      collateral_index ←
          ok_or (find_collateral_index t deposit_reserve) invalid_obligation_collateral
      collateral ← index t.deposits collateral_index
      ok (collateral, collateral_index)

-- Returns the position, its index and the ticket.
unfoldable pub find_or_add_collateral_to_deposits :
    Ticket → Pubkey → Decimal → Result (TicketCollateral × ℕ × Ticket)
unfolding find_collateral_index new_collateral
find_or_add_collateral_to_deposits t deposit_reserve l_token_mining_index =
    elim (find_collateral_index t deposit_reserve) [
      | some collateral_index ↦
          index t.deposits collateral_index >>= λ collateral. ok (collateral, collateral_index, t)
      | none ↦
          if leb max_obligation_reserves (length t.deposits)
          then fail obligation_reserve_limit
          else let collateral = new_collateral deposit_reserve l_token_mining_index in
            let deposits = t.deposits ++ collateral ∷ [] in
            ok (collateral, length deposits - 1, record t { deposits = deposits })
    ]

pub record ObligationLiquidity : Type 0 where
  pub index : Decimal
  pub borrow_reserve : Pubkey
  pub cumulative_borrow_rate_wads : Decimal
  pub borrowed_amount_wads : Decimal
  pub market_value : Decimal

-- `ObligationLiquidity::new`, `repay`, `borrow` and `accrue_interest`
unfoldable pub new_liquidity : Pubkey → Decimal → Decimal → ObligationLiquidity
new_liquidity borrow_reserve cumulative_borrow_rate_wads borrow_mining_index = record {
  index = borrow_mining_index;
  borrow_reserve = borrow_reserve;
  cumulative_borrow_rate_wads = cumulative_borrow_rate_wads;
  borrowed_amount_wads = Decimal.zero;
  market_value = Decimal.zero;
}

unfoldable pub repay_liquidity : ObligationLiquidity → Decimal → Result ObligationLiquidity
unfolding Decimal.try_sub
repay_liquidity o settle_amount = do
  borrowed ← Decimal.try_sub o.borrowed_amount_wads settle_amount
  ok (record o { borrowed_amount_wads = borrowed })

unfoldable pub borrow_liquidity : ObligationLiquidity → Decimal → Result ObligationLiquidity
unfolding Decimal.try_add
borrow_liquidity o borrow_amount = do
  borrowed ← Decimal.try_add o.borrowed_amount_wads borrow_amount
  ok (record o { borrowed_amount_wads = borrowed })

unfoldable pub accrue_interest : ObligationLiquidity → Decimal → Result ObligationLiquidity
unfolding Decimal.try_div Rate.try_from_decimal Decimal.try_mul_rate
accrue_interest o cumulative =
    if ltb cumulative o.cumulative_borrow_rate_wads
    then fail negative_interest_rate
    else if cumulative == o.cumulative_borrow_rate_wads
    then ok o
    else do
      quotient ← Decimal.try_div cumulative o.cumulative_borrow_rate_wads
      compounded_interest_rate ← Rate.try_from_decimal quotient
      borrowed ← Decimal.try_mul_rate o.borrowed_amount_wads compounded_interest_rate
      ok (record o { borrowed_amount_wads = borrowed; cumulative_borrow_rate_wads = cumulative })
