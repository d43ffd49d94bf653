-- ===== src/Processor/RefreshTicket.antt =====
-- `process_refresh_ticket` (src/processor.rs): the values and the rewards of all positions of a ticket.
pub mod Holdings
pub mod Values
use allwinprotocol.Base.{
  ℕ, zero, suc, ◌+◌, ◌^◌, ◌≤◌, ◌≡◌, refl, Bool, true, false, not, some, List, [], ◌∷◌, arith, ◌==◌,
  length, get_elem?, set, take, try_from,
}
use allwinprotocol.Error.{
  Result, ok, fail, ok_or, index, >>=-eq-ok, math_overflow, invalid_account_owner,
  invalid_account_input, reserve_stale, ◌>>=◌, ◌>>◌,
}
use allwinprotocol.Math.Decimal
use allwinprotocol.Math.Decimal.{Decimal}
use allwinprotocol.State.Common.{Pubkey, Slot}
use allwinprotocol.State.LastUpdate
use allwinprotocol.State.Collateral
use allwinprotocol.State.Pool
use allwinprotocol.State.Pool.{Pool}
use allwinprotocol.State.Ticket
use allwinprotocol.State.Ticket.{Ticket, TicketCollateral}
use allwinprotocol.State.Ticket.Pack as TicketPack
use allwinprotocol.State.Ticket.Validity.{IsValid}
use allwinprotocol.State.Ticket.Balances.{balance}
use allwinprotocol.Processor.Runtime.{Ledger, Account, AccountInfo, Runtime}
use allwinprotocol.Processor.Accounts.{reject_if, next_account_info, unpack_pool, write_bytes}

module _ (rt : Runtime) where
  unfoldable pub unpack_ticket : Ledger → Pubkey → Result Ticket
  unpack_ticket ledger key =
      rt.unpack TicketPack.obligation_len TicketPack.unpack_from_slice Ticket.is_initialized
        (ledger key).bytes

  unfoldable pub pack_ticket : Ticket → Pubkey → Ledger → Result Ledger
  pack_ticket ticket key ledger = do
    bytes ← rt.pack TicketPack.obligation_len (TicketPack.pack_into_slice ticket) (ledger key).bytes
    ok (write_bytes ledger key bytes)

  -- The position, and the pool that is passed for it
  unfoldable pub check_position :
      Pubkey → Slot → Ledger → ℕ → AccountInfo → Ticket → Result (TicketCollateral × Pool)
  unfolding unpack_pool LastUpdate.is_stale
  check_position program_id slot ledger pos info ticket = do
    reject_if (not ((ledger info.key).owner == program_id)) invalid_account_owner
    collateral ← index ticket.deposits pos
    reject_if (not (collateral.deposit_reserve == info.key)) invalid_account_input
    deposit_reserve ← unpack_pool rt ledger info.key
    stale ← LastUpdate.is_stale deposit_reserve.last_update slot
    reject_if stale reserve_stale
    ok (collateral, deposit_reserve)

  -- What the shares of a position are worth in the quote currency
  unfoldable pub market_value_of : TicketCollateral → Pool → Result Decimal
  unfolding Pool.collateral_exchange_rate Collateral.decimal_collateral_to_liquidity
      Decimal.from_u64 Decimal.try_mul Decimal.try_div_u64
  market_value_of collateral deposit_reserve = do
    decimals ← ok_or (try_from 64 (10 ^ deposit_reserve.liquidity.mint_decimals)) math_overflow
    rate ← Pool.collateral_exchange_rate deposit_reserve
    worth ←
        Collateral.decimal_collateral_to_liquidity rate
          (Decimal.from_u64 collateral.deposited_amount)
    priced ← Decimal.try_mul worth deposit_reserve.liquidity.market_price
    Decimal.try_div_u64 priced decimals

  -- The rest of the loop's body, on the ticket and the value so far
  unfoldable pub revalue_position :
      ℕ → TicketCollateral → Pool → Ticket → Decimal → Result (Ticket × Decimal)
  unfolding market_value_of Decimal.try_add Ticket.refresh_deposit_unclaimed
  revalue_position pos collateral deposit_reserve ticket deposited_value = do
    market_value ← market_value_of collateral deposit_reserve
    deposited_value' ← Decimal.try_add deposited_value market_value
    let valued = record collateral { market_value = market_value }
    ticket' ←
        Ticket.refresh_deposit_unclaimed
          (record ticket { deposits = set ticket.deposits pos valued }) pos deposit_reserve
    ok (ticket', deposited_value')

  unfoldable pub refresh_position :
      Pubkey → Slot → Ledger → ℕ → AccountInfo → Ticket → Decimal → Result (Ticket × Decimal)
  unfolding check_position revalue_position
  refresh_position program_id slot ledger pos info ticket deposited_value = do
    (collateral, deposit_reserve) ← check_position program_id slot ledger pos info ticket
    revalue_position pos collateral deposit_reserve ticket deposited_value

  -- `for pos in 0..ticket.deposits.len()`, with the number of positions left
  unfoldable pub refresh_positions :
      Pubkey
      → Slot
      → Ledger
      → ℕ
      → ℕ
      → List AccountInfo
      → Ticket
      → Decimal
      → Result (List AccountInfo × Ticket × Decimal)
  unfolding refresh_position next_account_info
  refresh_positions program_id slot ledger zero pos accounts ticket value =
      ok (accounts, ticket, value)
  refresh_positions program_id slot ledger (suc n) pos accounts ticket value = do
    (info, rest) ← next_account_info rt accounts
    (ticket', value') ← refresh_position program_id slot ledger pos info ticket value
    refresh_positions program_id slot ledger n (suc pos) rest ticket' value'

  -- What follows the checks of the ticket's own account
  unfoldable pub revalue_ticket :
      Pubkey → Slot → Pubkey → List AccountInfo → Ticket → Ledger → Result Ledger
  unfolding refresh_positions LastUpdate.update_slot pack_ticket
  revalue_ticket program_id slot key accounts ticket ledger = do
    (rest, ticket', deposited_value) ←
        refresh_positions program_id slot ledger (length ticket.deposits) 0 accounts ticket
          Decimal.zero
    reject_if (not (length rest == 0)) invalid_account_input
    pack_ticket
        (record ticket' {
          deposited_value = deposited_value;
          last_update = LastUpdate.update_slot ticket'.last_update slot;
        })
        key ledger

  unfoldable pub process_refresh_ticket : Pubkey → List AccountInfo → Ledger → Result Ledger
  unfolding next_account_info unpack_ticket revalue_ticket
  process_refresh_ticket program_id accounts ledger = do
    (ticket_info, accounts) ← next_account_info rt accounts
    (clock, accounts) ← next_account_info rt accounts
    slot ← rt.clock_slot clock ledger
    ticket ← unpack_ticket ledger ticket_info.key
    reject_if (not ((ledger ticket_info.key).owner == program_id)) invalid_account_owner
    revalue_ticket program_id slot ticket_info.key accounts ticket ledger
