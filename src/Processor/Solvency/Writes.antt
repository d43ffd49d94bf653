-- ===== src/Processor/Solvency/Writes.antt =====
-- The program writes to its own accounts only (src/processor.rs): what its handlers store.
use allwinprotocol.Base.{ℕ, ◌≡◌, refl, List, ◌==◌, ==→≡, Bool-cases, inl, inr}
use allwinprotocol.Error.{Result, ok, ◌>>=◌, >>=-eq-ok}
use allwinprotocol.State.Common.{Pubkey}
use allwinprotocol.State.Pool.{Pool}
use allwinprotocol.State.Pool.Pack as PoolPack
use allwinprotocol.State.PoolManager.{PoolManager}
use allwinprotocol.State.PoolManager.Pack as ManagerPack
use allwinprotocol.State.Ticket.{Ticket}
use allwinprotocol.State.Ticket.Pack as TicketPack
use allwinprotocol.Processor.Runtime.{Ledger, Runtime, IsCall}
use allwinprotocol.Processor.Accounts.{pack_pool, write_bytes}
use allwinprotocol.Processor.InitPoolManager.{pack_pool_manager}
use allwinprotocol.Processor.RefreshTicket.{pack_ticket}

pub write_bytes-IsCall :
    (program_id : Pubkey) (ledger : Ledger) (key : Pubkey) (bytes : List ℕ)
    → (ledger key).owner ≡ program_id
    → IsCall program_id ledger (write_bytes ledger key bytes)
unfolding write_bytes
write_bytes-IsCall program_id ledger key bytes owned k = elim (Bool-cases (k == key)) [
  | inl here ↦ (rw here refl, λ other. absurd (other (rw (==→≡ k key here) owned)))
  | inr elsewhere ↦ (rw elsewhere refl, λ _. rw elsewhere refl)
]

module _ (rt : Runtime) (program_id : Pubkey) (key : Pubkey) (ledger ledger' : Ledger)
    (owned : (ledger key).owner ≡ program_id) where
  packed-IsCall :
      (packed : Result (List ℕ))
      → (packed >>= λ bytes. ok (write_bytes ledger key bytes)) ≡ ok ledger'
      → IsCall program_id ledger ledger'
  packed-IsCall packed h =
      let (bytes, _, made) = >>=-eq-ok packed _ h in
      let same : write_bytes ledger key bytes ≡ ledger' = cc in
      rw (← same) (write_bytes-IsCall program_id ledger key bytes owned)

  pub pack_pool-IsCall :
      (p : Pool) → pack_pool rt p key ledger ≡ ok ledger' → IsCall program_id ledger ledger'
  unfolding pack_pool
  pack_pool-IsCall p h =
      packed-IsCall (rt.pack PoolPack.reserve_len (PoolPack.pack_into_slice p) (ledger key).bytes) h

  pub pack_ticket-IsCall :
      (t : Ticket) → pack_ticket rt t key ledger ≡ ok ledger' → IsCall program_id ledger ledger'
  unfolding pack_ticket
  pack_ticket-IsCall t h =
      packed-IsCall
        (rt.pack TicketPack.obligation_len (TicketPack.pack_into_slice t) (ledger key).bytes) h

  pub pack_pool_manager-IsCall :
      (m : PoolManager)
      → pack_pool_manager rt m key ledger ≡ ok ledger'
      → IsCall program_id ledger ledger'
  unfolding pack_pool_manager
  pack_pool_manager-IsCall m h =
      packed-IsCall
        (rt.pack ManagerPack.pool_manager_len (ManagerPack.pack_into_slice m) (ledger key).bytes) h
