-- ===== src/Processor/Vault/Stores.antt =====
-- What the handlers of src/processor.rs store: a pool that is sound is a sound pool with the same
-- tokens in the ledger, and the other kinds of account are no pools.
use allwinprotocol.Base.{
  ℕ, ◌≡◌, ◌≢◌, sym, ◌∙◌, ◌++◌, none, some, List, arith, ◌==◌, ==→≡, Bool-cases, if◌then◌else◌,
  length, drop, length-append, length-drop, Option-cases, inl, inr,
}
use allwinprotocol.Error.{Result, ok, >>=-eq-ok}
use allwinprotocol.State.Common.{Pubkey, program_version}
use allwinprotocol.State.Codec.{write_fields}
use allwinprotocol.State.Codec.RoundTrip.{length-write_fields}
use allwinprotocol.State.Pool.{Pool}
use allwinprotocol.State.Pool.Principal.{IsBacked}
use allwinprotocol.State.Pool.Pack as PoolPack
use allwinprotocol.State.Pool.Repack.{keys, cut_keys, cut_keys_done, unpack-pack_backed}
use allwinprotocol.State.PoolManager.{PoolManager}
use allwinprotocol.State.PoolManager.Pack as ManagerPack
use allwinprotocol.State.Ticket.{Ticket}
use allwinprotocol.State.Ticket.Pack as TicketPack
use allwinprotocol.State.Ticket.PackLength.{length-pack_ticket}
use allwinprotocol.Processor.Runtime.{Ledger, Runtime, PackLaws}
use allwinprotocol.Processor.Accounts.{pack_pool, write_bytes}
use allwinprotocol.Processor.InitPoolManager.{pack_pool_manager}
use allwinprotocol.Processor.RefreshTicket.{pack_ticket}
use allwinprotocol.Processor.Vault.{pool_at, IsSoundPool}
use allwinprotocol.Processor.Vault.Storage.{
  pack-eq_ok, unpack_pool-eq_ok, unpack_pool-ok, pool_at-eq_some, pool_at-some, write_bytes-pool_at,
}

written :
    (ledger : Ledger) (key : Pubkey) (bytes : List ℕ)
    → ((write_bytes ledger key bytes key).bytes ≡ bytes)
      × ((write_bytes ledger key bytes key).owner ≡ (ledger key).owner)
unfolding write_bytes
written ledger key bytes = ground arith

length-pack_pool_manager :
    (m : PoolManager) (output bytes : List ℕ)
    → length output ≡ ManagerPack.pool_manager_len
    → ManagerPack.pack_into_slice m output ≡ ok bytes
    → length bytes ≡ ManagerPack.pool_manager_len
unfolding ManagerPack.pack_into_slice
length-pack_pool_manager m output bytes size h =
    let h0 = rw size at h in
    let same : write_fields (ManagerPack.fields m) ++ drop 226 output ≡ bytes = cc in
    rw (← same) (
      omega (
        arith,
        size,
        length-append {0} (write_fields (ManagerPack.fields m)) (drop 226 output),
        length-write_fields (ManagerPack.fields m),
        length-drop {0} 226 output,
      ))

module _ (rt : Runtime) (program_id : Pubkey) (laws : PackLaws rt) where
  -- Bytes of another length are no pool.
  no_pool :
      (ledger : Ledger) (key : Pubkey)
      → length (ledger key).bytes ≢ PoolPack.reserve_len
      → pool_at rt program_id ledger key ≡ none
  no_pool ledger key size = elim (Option-cases (pool_at rt program_id ledger key)) [
    | inl e ↦ e
    | inr (p, e) ↦
        let (owned, read) = pool_at-eq_some rt program_id ledger key p e in
        let (same, _, _) = unpack_pool-eq_ok rt laws ledger key p read in absurd (size same)
  ]

  -- A pool that is stored with success
  pub pack_pool-pool_at :
      (p : Pool) (key : Pubkey) (ledger ledger' : Ledger)
      → (ledger key).owner ≡ program_id
      → p.version ≡ program_version
      → IsBacked p
      → pack_pool rt p key ledger ≡ ok ledger'
      → (q : Pool) × IsSoundPool q
        × (q.liquidity.available_amount ≡ p.liquidity.available_amount)
        × (keys q ≡ cut_keys (keys p))
        × ((k : Pubkey)
            → pool_at rt program_id ledger' k
              ≡ (if k == key then some q else pool_at rt program_id ledger k))
  unfolding pack_pool
  pack_pool-pool_at p key ledger ledger' owned version backed h =
      let (bytes, packs, made) =
        >>=-eq-ok (rt.pack PoolPack.reserve_len (PoolPack.pack_into_slice p) (ledger key).bytes) _
          h in
      let (size, packed) =
        pack-eq_ok rt laws PoolPack.reserve_len (PoolPack.pack_into_slice p) (ledger key).bytes
          packs in
      let (q, read, size', r) =
        unpack-pack_backed p (ledger key).bytes bytes version backed size packed in
      let (bytes_there, owner_there) = written ledger key bytes in
      let there =
        pool_at-some rt program_id (write_bytes ledger key bytes) key q (owner_there ∙ owned) (
          unpack_pool-ok rt laws (write_bytes ledger key bytes) key q (rw bytes_there size')
            (rw bytes_there read) r.version) in
      let after = write_bytes-pool_at rt program_id ledger key bytes (some q) there in
      let same : write_bytes ledger key bytes ≡ ledger' = cc in
      (
        q,
        record {
          version = r.version;
          backed = r.backed;
          keyed = cut_keys_done (keys q) (keys p) r.keyed;
        },
        r.funds,
        r.keyed,
        rw same at after,
      )

  -- What is stored in an account of another size
  stored_otherwise :
      (len : ℕ) (pack_into_slice : List ℕ → Result (List ℕ)) (key : Pubkey) (ledger : Ledger)
      (bytes : List ℕ)
      → len ≢ PoolPack.reserve_len
      → ((dst bytes : List ℕ)
          → length dst ≡ len
          → pack_into_slice dst ≡ ok bytes
          → length bytes ≡ len)
      → rt.pack len pack_into_slice (ledger key).bytes ≡ ok bytes
      → (k : Pubkey)
      → pool_at rt program_id (write_bytes ledger key bytes) k ≡ pool_at rt program_id ledger k
  stored_otherwise len pack_into_slice key ledger bytes other keeps packs k =
      let (size, packed) = pack-eq_ok rt laws len pack_into_slice (ledger key).bytes packs in
      let size' = keeps (ledger key).bytes bytes size packed in
      let (bytes_there, _) = written ledger key bytes in
      let before = no_pool ledger key (λ e. other (sym size ∙ e)) in
      let there =
        no_pool (write_bytes ledger key bytes) key (rw bytes_there (λ e. other (sym size' ∙ e))) in
      let after = write_bytes-pool_at rt program_id ledger key bytes none there k in
      elim (Bool-cases (k == key)) [
        | inl here ↦ rw here at after ∙ sym (rw (==→≡ k key here) before)
        | inr elsewhere ↦ rw elsewhere at after
      ]

  pub pack_ticket-pool_at :
      (t : Ticket) (key : Pubkey) (ledger ledger' : Ledger)
      → pack_ticket rt t key ledger ≡ ok ledger'
      → (k : Pubkey) → pool_at rt program_id ledger' k ≡ pool_at rt program_id ledger k
  unfolding pack_ticket
  pack_ticket-pool_at t key ledger ledger' h k =
      let (bytes, packs, made) =
        >>=-eq-ok
          (rt.pack TicketPack.obligation_len (TicketPack.pack_into_slice t) (ledger key).bytes) _
          h in
      let same : write_bytes ledger key bytes ≡ ledger' = cc in
      rw (← same) (
        stored_otherwise TicketPack.obligation_len (TicketPack.pack_into_slice t) key ledger bytes
          (omega arith) (length-pack_ticket t) packs k)

  pub pack_pool_manager-pool_at :
      (m : PoolManager) (key : Pubkey) (ledger ledger' : Ledger)
      → pack_pool_manager rt m key ledger ≡ ok ledger'
      → (k : Pubkey) → pool_at rt program_id ledger' k ≡ pool_at rt program_id ledger k
  unfolding pack_pool_manager
  pack_pool_manager-pool_at m key ledger ledger' h k =
      let (bytes, packs, made) =
        >>=-eq-ok
          (rt.pack ManagerPack.pool_manager_len (ManagerPack.pack_into_slice m) (ledger key).bytes)
          _ h in
      let same : write_bytes ledger key bytes ≡ ledger' = cc in
      rw (← same) (
        stored_otherwise ManagerPack.pool_manager_len (ManagerPack.pack_into_slice m) key ledger
          bytes (omega arith) (length-pack_pool_manager m) packs k)
