-- ===== src/Tests/TokenLaws.antt =====
-- The token program of the tests has the documented behaviour.
use allwinprotocol.Base.{
  ℕ, ◌+◌, ◌-◌, ◌≤◌, ◌≡◌, ◌≢◌, refl, sym, ap, ◌∙◌, true, false, Option, none, some, arith, Fits,
  ◌==◌, ==→≡, if◌then◌else◌, Bool-cases, inl, inr,
}
use allwinprotocol.Error.{ok, ◌>>=◌, >>=-eq-ok}
use allwinprotocol.Processor.Runtime.{
  Ledger, TokenAccount, Mint, TokenInstruction, transfer, mint_to, burn, program_of,
}
use allwinprotocol.Processor.Accounts.{write_bytes}
use allwinprotocol.Processor.Tokens.{
  token_at, IsAuthority, taken_from, LosesAtMost, SparesAuthorities,
}
use allwinprotocol.Tests.Runtime.{
  mint_account, mint_more, mint_bytes, account_of, take_out, put_in, token_bytes, run_token, run,
  run_plain, signs_for, rt,
}
use allwinprotocol.Tests.RuntimeLaws.{
  take_out-effect, put_in-effect, mint_more-effect, mint_less-effect, mint_account-owner,
  account_of-owner, run_plain-run,
}

token_at-account_of :
    (l : Ledger) (key : ℕ) (t : TokenAccount) → account_of l key ≡ ok t → token_at rt l key ≡ some t
unfolding token_at
token_at-account_of l key t h = ground arith

account_of-token_at :
    (l : Ledger) (key : ℕ) (t : TokenAccount) → token_at rt l key ≡ some t → account_of l key ≡ ok t
unfolding token_at
account_of-token_at l key t h = ground arith

-- An account that is written, and the others
token_at-write :
    (l : Ledger) (key : ℕ) (t : TokenAccount)
    → (l key).owner ≡ 12
    → Fits 64 t.amount
    → (k : ℕ)
    → token_at rt (write_bytes l key (token_bytes t)) k
      ≡ (if k == key then some t else token_at rt l k)
unfolding token_at write_bytes
token_at-write l key t owned fits k = elim (Bool-cases (k == key)) [
  | inl here ↦ let same = ==→≡ k key here in rw (here, same, owned) (ground arith)
  | inr elsewhere ↦ rw elsewhere refl
]

-- A mint is no token account.
pub no_token :
    (l : Ledger) (key : ℕ) (m : Mint) → mint_account l key ≡ ok m → token_at rt l key ≡ none
unfolding token_at
no_token l key m h = ground arith

-- A mint that is written leaves the token accounts alone.
token_at-mint_write :
    (l : Ledger) (key : ℕ) (m m' : Mint)
    → mint_account l key ≡ ok m
    → (k : ℕ) → token_at rt (write_bytes l key (mint_bytes m')) k ≡ token_at rt l k
unfolding token_at write_bytes
token_at-mint_write l key m m' read k = elim (Bool-cases (k == key)) [
  | inl here ↦
      let same = ==→≡ k key here in
      let before = no_token l key m read in
      let owned = mint_account-owner l key m read in
      rw (here, same, owned) (rw owned at (sym before))
  | inr elsewhere ↦ rw elsewhere refl
]

write-LosesAtMost :
    (lost : ℕ → ℕ) (l : Ledger) (key m : ℕ) (t : TokenAccount)
    → account_of l key ≡ ok t
    → Fits 64 m
    → t.amount ≤ m + lost key
    → LosesAtMost rt lost l (write_bytes l key (token_bytes (record t { amount = m })))
write-LosesAtMost lost l key m t read fits bound k u e =
    let t' = record t { amount = m } in
    let after = token_at-write l key t' (account_of-owner l key t read) fits k in
    elim (Bool-cases (k == key)) [
      | inl here ↦
          let same = ==→≡ k key here in
          let read' = account_of-token_at l k u e in
          let is : u ≡ t = ground (arith, rw same at read') in
          (t', rw here at after, ap (λ (x : TokenAccount). x.owner) (sym is), rw (is, same) bound)
      | inr elsewhere ↦ (u, (rw elsewhere at after) ∙ e, refl, omega arith)
    ]

LosesAtMost-trans :
    (lost lost' : ℕ → ℕ) (l l1 l2 : Ledger)
    → LosesAtMost rt lost l l1
    → LosesAtMost rt lost' l1 l2
    → LosesAtMost rt (λ k. lost k + lost' k) l l2
LosesAtMost-trans lost lost' l l1 l2 first second k t e =
    let (t1, e1, same1, more1) = first k t e in
    let (t2, e2, same2, more2) = second k t1 e1 in (t2, e2, same2 ∙ same1, omega arith)

account_of-Fits :
    (l : Ledger) (key : ℕ) (t : TokenAccount) → account_of l key ≡ ok t → Fits 64 t.amount
account_of-Fits l key t h = ground arith

take_out-LosesAtMost :
    (key n : ℕ) (l l' : Ledger)
    → take_out key n l ≡ ok l'
    → LosesAtMost rt (λ k. if k == key then n else 0) l l'
take_out-LosesAtMost key n l l' h =
    let (t, read, covered, same) = take_out-effect key n l l' h in
    let itself : (key == key) ≡ true = ground arith in
    rw same (
      write-LosesAtMost (λ k. if k == key then n else 0) l key (t.amount - n) t read
        (omega (arith, account_of-Fits l key t read)) (rw itself (omega arith)))

put_in-LosesAtMost :
    (key n : ℕ) (l l' : Ledger) → put_in key n l ≡ ok l' → LosesAtMost rt (λ k. 0) l l'
put_in-LosesAtMost key n l l' h =
    let (t, read, fits, same) = put_in-effect key n l l' h in
    rw same (write-LosesAtMost (λ k. 0) l key (t.amount + n) t read fits (omega arith))

run_token-LosesAtMost :
    (call : TokenInstruction) (l l' : Ledger)
    → run_token call l ≡ ok l'
    → LosesAtMost rt (taken_from call) l l'
run_token-LosesAtMost (transfer p source destination _ n) l l' h = λ k t e.
    let (l1, takes, puts) = >>=-eq-ok (take_out source n l) _ h in
    let (t', there, owner, more) =
      LosesAtMost-trans (λ k. if k == source then n else 0) (λ k. 0) l l1 l'
        (take_out-LosesAtMost source n l l1 takes) (put_in-LosesAtMost destination n l1 l' puts) k t
        e in
    (t', there, owner, omega arith)
run_token-LosesAtMost (mint_to p mint destination authority n) l l' h = λ k t e.
    let (l1, mints, puts) = >>=-eq-ok (mint_more mint authority n l) _ h in
    let (m, read, _, same) = mint_more-effect mint authority n l l1 mints in
    put_in-LosesAtMost destination n l1 l' puts k t
      (rw same (token_at-mint_write l mint m (record m { supply = m.supply + n }) read k ∙ e))
run_token-LosesAtMost (burn p source mint _ n) l l' h = λ k t e.
    let (l1, takes, burns) = >>=-eq-ok (take_out source n l) _ h in
    let (t', there, owner, more) = take_out-LosesAtMost source n l l1 takes k t e in
    let (m, read, _, same) = mint_less-effect mint n l1 l' burns in
    (
      t',
      rw same (token_at-mint_write l1 mint m (record m { supply = m.supply - n }) read k ∙ there),
      owner,
      more,
    )

pub run-LosesAtMost :
    (call : TokenInstruction) (l l' : Ledger)
    → run call l ≡ ok l'
    → LosesAtMost rt (taken_from call) l l'
run-LosesAtMost call l l' h = elim (Bool-cases (program_of call == 12)) [
  | inl token ↦ run_token-LosesAtMost call l l' (rw token at h)
  | inr not_token ↦ let h0 = rw not_token at h in cc
]

pub IsAuthority-le :
    (program_id authority : ℕ) → IsAuthority rt program_id authority → 254 ≤ authority
IsAuthority-le program_id authority h = let derived = h.derived in ground arith

-- A plain call takes nothing from an account whose owner is a derived key.
nothing_taken :
    (call : TokenInstruction) (l : Ledger) (k : ℕ) (t : TokenAccount)
    → signs_for call l ≡ true
    → account_of l k ≡ ok t
    → 254 ≤ t.owner
    → taken_from call k ≡ 0
nothing_taken (transfer p source _ _ n) l k t signs read high = elim (Bool-cases (k == source)) [
  | inl here ↦
      absurd
        (let same = ==→≡ k source here in let r = rw same at read in ground (arith, signs, r, high))
  | inr elsewhere ↦ rw elsewhere refl
]
nothing_taken (mint_to _ _ _ _ _) l k t signs read high = refl
nothing_taken (burn p source _ _ n) l k t signs read high = elim (Bool-cases (k == source)) [
  | inl here ↦
      absurd
        (let same = ==→≡ k source here in let r = rw same at read in ground (arith, signs, r, high))
  | inr elsewhere ↦ rw elsewhere refl
]

pub run_plain-SparesAuthorities :
    (program_id : ℕ) (call : TokenInstruction) (l l' : Ledger)
    → run_plain call l ≡ ok l'
    → SparesAuthorities rt program_id l l'
run_plain-SparesAuthorities program_id call l l' h k t e authority =
    let (signs, runs) = run_plain-run call l l' h in
    let (t', there, owner, more) = run-LosesAtMost call l l' runs k t e in
    let none_taken =
      nothing_taken call l k t signs (account_of-token_at l k t e)
        (IsAuthority-le program_id t.owner authority) in
    (t', there, owner, omega arith)

run_transfer :
    (p source destination authority n : ℕ) (l l' : Ledger)
    → run (transfer p source destination authority n) l ≡ ok l'
    → (take_out source n l >>= put_in destination n) ≡ ok l'
run_transfer p source destination authority n l l' h = elim (Bool-cases (p == 12)) [
  | inl token ↦ rw token at h
  | inr not_token ↦ let h0 = rw not_token at h in cc
]

arrived :
    (o : Option TokenAccount) (t d t' : TokenAccount) (n : ℕ)
    → o ≡ some t
    → o ≡ some d
    → some t' ≡ some (record d { amount = d.amount + n })
    → t'.amount ≡ t.amount + n
arrived o t d t' n h h' e = ground arith

pub transfer-arrives :
    (p source destination authority n : ℕ) (l l' : Ledger)
    → run_plain (transfer p source destination authority n) l ≡ ok l'
    → destination ≢ source
    → (t t' : TokenAccount) → token_at rt l destination ≡ some t
    → token_at rt l' destination ≡ some t'
    → t'.amount ≡ t.amount + n
transfer-arrives p source destination authority n l l' h apart t t' before after =
    let (_, runs) = run_plain-run (transfer p source destination authority n) l l' h in
    let (l1, takes, puts) =
      >>=-eq-ok (take_out source n l) _ (run_transfer p source destination authority n l l' runs) in
    let (s, read_s, _, made) = take_out-effect source n l l1 takes in
    let (d, read_d, fits, made') = put_in-effect destination n l1 l' puts in
    let there =
      token_at-write l source (record s { amount = s.amount - n })
        (account_of-owner l source s read_s) (omega (arith, account_of-Fits l source s read_s))
        destination in
    let elsewhere : (destination == source) ≡ false = ground arith in
    let there' =
      token_at-write l1 destination (record d { amount = d.amount + n })
        (account_of-owner l1 destination d read_d) fits destination in
    let itself : (destination == destination) ≡ true = ground arith in
    let now = rw (← made, elsewhere, before) at there in
    let end = rw (← made', itself, after) at there' in
    let before' = token_at-account_of l1 destination d read_d in arrived _ t d t' n now before' end
