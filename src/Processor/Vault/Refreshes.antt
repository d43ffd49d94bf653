-- ===== src/Processor/Vault/Refreshes.antt =====
-- Refreshes and new tickets and pool managers (src/processor.rs) as steps of the vault: none moves
-- tokens.
use allwinprotocol.Base.{refl, ap, ℕ, Bool, arith, ◌≡◌, ◌∙◌, not, List, ◌==◌, length}
use allwinprotocol.Error.{ok, >>=-eq-ok, invalid_account_owner, invalid_account_input}
use allwinprotocol.Math.Decimal
use allwinprotocol.Math.Decimal.{Decimal}
use allwinprotocol.State.Common.{Pubkey, Slot}
use allwinprotocol.Instruction.{init_pooling_manager, refresh_pool, init_ticket, refresh_ticket}
use allwinprotocol.Processor.Runtime.{Ledger, AccountInfo, Runtime, PackLaws}
use allwinprotocol.Processor.Accounts.{next_account_info, unpack_pool, pack_pool}
use allwinprotocol.Processor.Exchange.{reject_if-eq-ok, require-eq-ok}
use allwinprotocol.Processor.Principal.{refresh_step-IsBacked}
use allwinprotocol.Processor.RefreshPool.Effect.{refreshed-eq_ok, refresh_step-effect}
use allwinprotocol.Processor.Steps.{refresh_step}
use allwinprotocol.State.Pool.{Pool}
use allwinprotocol.State.Ticket.{Ticket}
use allwinprotocol.State.PoolManager.{PoolManager}
use allwinprotocol.State.Pool.Repack.{keys, cut_keys}
use allwinprotocol.Processor.RefreshPool.{refreshed, process_refresh_reserve}
use allwinprotocol.Processor.RefreshTicket.{
  pack_ticket, unpack_ticket, refresh_positions, revalue_ticket, process_refresh_ticket,
}
use allwinprotocol.Processor.InitTicket.{check_ticket, process_init_ticket}
use allwinprotocol.Processor.InitTicket.Opening.{check_ticket-eq_ok}
use allwinprotocol.Processor.InitPoolManager.{
  pack_pool_manager, check_pool_manager, process_init_pool_manager,
}
use allwinprotocol.Processor.Vault.{IsSound}
use allwinprotocol.Processor.Vault.Storage.{pool_at-some}
use allwinprotocol.Processor.Vault.Stores.{
  pack_pool-pool_at, pack_ticket-pool_at, pack_pool_manager-pool_at,
}
use allwinprotocol.Processor.Vault.Steps.{IsStep, idle-IsStep, keeps-IsStep}

refresh_step-keys :
    (p p' : Pool) (price : Decimal) (slot : Slot)
    → refresh_step p price slot ≡ ok p'
    → keys p' ≡ keys p
refresh_step-keys p p' price slot h =
    let (_, _, _, _, same) = refresh_step-effect p p' price slot h in rw same refl

-- What each handler stores, and where: in an account of the program.
module _ (rt : Runtime) (program_id : Pubkey) where
  pub process_refresh_reserve-stores :
      (accounts : List AccountInfo) (ledger ledger' : Ledger)
      → process_refresh_reserve rt program_id accounts ledger ≡ ok ledger'
      → (key : Pubkey) × (slot : Slot) × (price : Decimal) × (p p' : Pool) × (unpack_pool rt ledger
            key
          ≡ ok p)
        × ((ledger key).owner ≡ program_id)
        × (refresh_step p price slot ≡ ok p')
        × (pack_pool rt p' key ledger ≡ ok ledger')
  unfolding process_refresh_reserve
  process_refresh_reserve-stores accounts ledger ledger' h =
      let ((reserve, accounts1), _, h1) = >>=-eq-ok (next_account_info rt accounts) _ h in
      let ((oracle, accounts2), _, h2) = >>=-eq-ok (next_account_info rt accounts1) _ h1 in
      let ((clock, accounts3), _, h3) = >>=-eq-ok (next_account_info rt accounts2) _ h2 in
      let (slot, _, h4) = >>=-eq-ok (rt.clock_slot clock ledger) _ h3 in
      let (p', refreshes, stores) =
        >>=-eq-ok (refreshed rt program_id reserve.key oracle.key slot ledger) _ h4 in
      let (p, price, read, owned, _, _, step) =
        refreshed-eq_ok rt program_id reserve.key oracle.key slot ledger p' refreshes in
      (reserve.key, slot, price, p, p', read, owned, step, stores)

  pub process_refresh_ticket-stores :
      (accounts : List AccountInfo) (ledger ledger' : Ledger)
      → process_refresh_ticket rt program_id accounts ledger ≡ ok ledger'
      → (key : Pubkey) × (t : Ticket) × ((ledger key).owner ≡ program_id)
        × (pack_ticket rt t key ledger ≡ ok ledger')
  unfolding process_refresh_ticket revalue_ticket
  process_refresh_ticket-stores accounts ledger ledger' h =
      let ((info, accounts1), _, h1) = >>=-eq-ok (next_account_info rt accounts) _ h in
      let ((clock, accounts2), _, h2) = >>=-eq-ok (next_account_info rt accounts1) _ h1 in
      let (slot, _, h3) = >>=-eq-ok (rt.clock_slot clock ledger) _ h2 in
      let (ticket, _, h4) = >>=-eq-ok (unpack_ticket rt ledger info.key) _ h3 in
      let (owned, h5) =
        require-eq-ok (ledger info.key).owner program_id invalid_account_owner _ h4 in
      let ((rest, ticket', value), _, h6) =
        >>=-eq-ok
          (refresh_positions rt program_id slot ledger (length ticket.deposits) 0 accounts2 ticket
            Decimal.zero)
          _ h5 in
      let (_, stores) = reject_if-eq-ok (not (length rest == 0)) invalid_account_input _ h6 in
      (info.key, _, owned, stores)

  pub process_init_ticket-stores :
      (accounts : List AccountInfo) (ledger ledger' : Ledger)
      → process_init_ticket rt program_id accounts ledger ≡ ok ledger'
      → (key : Pubkey) × (t : Ticket) × ((ledger key).owner ≡ program_id)
        × (pack_ticket rt t key ledger ≡ ok ledger')
  unfolding process_init_ticket
  process_init_ticket-stores accounts ledger ledger' h =
      let ((info, accounts1), _, h1) = >>=-eq-ok (next_account_info rt accounts) _ h in
      let ((manager, accounts2), _, h2) = >>=-eq-ok (next_account_info rt accounts1) _ h1 in
      let ((owner, accounts3), _, h3) = >>=-eq-ok (next_account_info rt accounts2) _ h2 in
      let ((clock, accounts4), _, h4) = >>=-eq-ok (next_account_info rt accounts3) _ h3 in
      let (slot, _, h5) = >>=-eq-ok (rt.clock_slot clock ledger) _ h4 in
      let ((rent, accounts5), _, h6) = >>=-eq-ok (next_account_info rt accounts4) _ h5 in
      let (is_exempt, _, h7) = >>=-eq-ok (rt.rent_is_exempt rent ledger) _ h6 in
      let ((token_program, _), _, h8) = >>=-eq-ok (next_account_info rt accounts5) _ h7 in
      let (ticket, checks, stores) =
        >>=-eq-ok (check_ticket rt program_id is_exempt info manager owner token_program ledger) _
          h8 in
      let (_, owned, _, _, _, _, _) =
        check_ticket-eq_ok rt program_id is_exempt info manager owner token_program ledger ticket
          checks in
      (info.key, _, owned, stores)

  check_pool_manager-owned :
      (is_exempt : ℕ → ℕ → Bool) (authority info : AccountInfo) (ledger : Ledger) (m : PoolManager)
      → check_pool_manager rt program_id is_exempt authority info ledger ≡ ok m
      → (ledger info.key).owner ≡ program_id
  unfolding check_pool_manager
  check_pool_manager-owned is_exempt authority info ledger m h = ground arith

  pub process_init_pool_manager-stores :
      (owner : Pubkey) (quote_currency : ℕ) (accounts : List AccountInfo) (ledger ledger' : Ledger)
      → process_init_pool_manager rt program_id owner quote_currency accounts ledger ≡ ok ledger'
      → (key : Pubkey) × (m : PoolManager) × ((ledger key).owner ≡ program_id)
        × (pack_pool_manager rt m key ledger ≡ ok ledger')
  unfolding process_init_pool_manager
  process_init_pool_manager-stores owner quote_currency accounts ledger ledger' h =
      let ((authority, accounts1), _, h1) = >>=-eq-ok (next_account_info rt accounts) _ h in
      let ((info, accounts2), _, h2) = >>=-eq-ok (next_account_info rt accounts1) _ h1 in
      let ((rent, accounts3), _, h3) = >>=-eq-ok (next_account_info rt accounts2) _ h2 in
      let (is_exempt, _, h4) = >>=-eq-ok (rt.rent_is_exempt rent ledger) _ h3 in
      let ((token_program, accounts4), _, h5) = >>=-eq-ok (next_account_info rt accounts3) _ h4 in
      let ((oracle, accounts5), _, h6) = >>=-eq-ok (next_account_info rt accounts4) _ h5 in
      let ((mine, accounts6), _, h7) = >>=-eq-ok (next_account_info rt accounts5) _ h6 in
      let ((mine_supply, _), _, h8) = >>=-eq-ok (next_account_info rt accounts6) _ h7 in
      let (manager, checks, stores) =
        >>=-eq-ok (check_pool_manager rt program_id is_exempt authority info ledger) _ h8 in
      (info.key, _, check_pool_manager-owned is_exempt authority info ledger manager checks, stores)

module _ (rt : Runtime) (program_id : Pubkey) (packs : PackLaws rt) where
  pub process_refresh_reserve-IsStep :
      (accounts : List AccountInfo) (ledger ledger' : Ledger)
      → IsSound rt program_id ledger
      → process_refresh_reserve rt program_id accounts ledger ≡ ok ledger'
      → IsStep rt program_id refresh_pool ledger ledger'
  process_refresh_reserve-IsStep accounts ledger ledger' sound h =
      let (key, slot, price, p, p', read, owned, step, stores) =
        process_refresh_reserve-stores rt program_id accounts ledger ledger' h in
      let before = pool_at-some rt program_id ledger key p owned read in
      let sound_p = sound key p before in
      let (backed, same, version) = refresh_step-IsBacked p p' price slot sound_p.backed step in
      let (q, sound_q, funds, keyed, stored) =
        pack_pool-pool_at rt program_id packs p' key ledger ledger' owned
          (version ∙ sound_p.version) backed stores in
      let kept : keys p' ≡ keys p = refresh_step-keys p p' price slot step in
      keeps-IsStep rt program_id refresh_pool ledger ledger' sound key q sound_q stored p refl
        before (keyed ∙ ap cut_keys kept ∙ sound_p.keyed) (funds ∙ same)

  pub process_refresh_ticket-IsStep :
      (accounts : List AccountInfo) (ledger ledger' : Ledger)
      → IsSound rt program_id ledger
      → process_refresh_ticket rt program_id accounts ledger ≡ ok ledger'
      → IsStep rt program_id refresh_ticket ledger ledger'
  process_refresh_ticket-IsStep accounts ledger ledger' sound h =
      let (key, t, _, stores) =
        process_refresh_ticket-stores rt program_id accounts ledger ledger' h in
      idle-IsStep rt program_id refresh_ticket ledger ledger' sound refl
        (pack_ticket-pool_at rt program_id packs t key ledger ledger' stores)

  pub process_init_ticket-IsStep :
      (accounts : List AccountInfo) (ledger ledger' : Ledger)
      → IsSound rt program_id ledger
      → process_init_ticket rt program_id accounts ledger ≡ ok ledger'
      → IsStep rt program_id init_ticket ledger ledger'
  process_init_ticket-IsStep accounts ledger ledger' sound h =
      let (key, t, _, stores) =
        process_init_ticket-stores rt program_id accounts ledger ledger' h in
      idle-IsStep rt program_id init_ticket ledger ledger' sound refl
        (pack_ticket-pool_at rt program_id packs t key ledger ledger' stores)

  pub process_init_pool_manager-IsStep :
      (owner : Pubkey) (quote_currency : ℕ) (accounts : List AccountInfo) (ledger ledger' : Ledger)
      → IsSound rt program_id ledger
      → process_init_pool_manager rt program_id owner quote_currency accounts ledger ≡ ok ledger'
      → IsStep rt program_id (init_pooling_manager owner quote_currency) ledger ledger'
  process_init_pool_manager-IsStep owner quote_currency accounts ledger ledger' sound h =
      let (key, m, _, stores) =
        process_init_pool_manager-stores rt program_id owner quote_currency accounts ledger ledger'
          h in
      idle-IsStep rt program_id (init_pooling_manager owner quote_currency) ledger ledger' sound
        refl (pack_pool_manager-pool_at rt program_id packs m key ledger ledger' stores)
