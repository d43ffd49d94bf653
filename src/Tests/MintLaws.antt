-- ===== src/Tests/MintLaws.antt =====
-- The mints of the tests have the documented behaviour.
use allwinprotocol.Base.{
  ℕ, ◌+◌, ◌-◌, ◌≤◌, ◌≡◌, refl, sym, ap, ◌∙◌, true, none, some, arith, ◌==◌, ==→≡, if◌then◌else◌,
  Bool-cases, inl, inr,
}
use allwinprotocol.Error.{ok, err, other, >>=-eq-ok}
use allwinprotocol.Processor.Runtime.{
  Ledger, TokenAccount, Mint, TokenInstruction, transfer, mint_to, burn, program_of,
}
use allwinprotocol.Processor.Accounts.{write_bytes}
use allwinprotocol.Processor.Tokens.{mint_at, minted_by, MintsAtMost, MintsNothing, TokenLaws}
use allwinprotocol.Tests.Runtime.{
  mint_account, mint_more, mint_bytes, account_of, take_out, put_in, token_bytes, run_token, run,
  run_plain, signs_for, rt,
}
use allwinprotocol.Tests.RuntimeLaws.{
  take_out-effect, put_in-effect, mint_more-effect, mint_less-effect, mint_account-owner,
  account_of-owner, run_plain-run,
}
use allwinprotocol.Tests.TokenLaws.{
  run-LosesAtMost, run_plain-SparesAuthorities, transfer-arrives, IsAuthority-le,
}

mint_at-mint_account :
    (l : Ledger) (key : ℕ) (m : Mint) → mint_at rt l key ≡ some m → mint_account l key ≡ ok m
unfolding mint_at
mint_at-mint_account l key m h = ground arith

-- A token account is no mint.
no_mint :
    (l : Ledger) (key : ℕ) (t : TokenAccount) → account_of l key ≡ ok t → mint_at rt l key ≡ none
unfolding mint_at
no_mint l key t h = ground arith

-- A token account that is written leaves the mints alone.
mint_at-token_write :
    (l : Ledger) (key : ℕ) (t t' : TokenAccount)
    → account_of l key ≡ ok t
    → (k : ℕ) → mint_at rt (write_bytes l key (token_bytes t')) k ≡ mint_at rt l k
unfolding mint_at write_bytes
mint_at-token_write l key t t' read k = elim (Bool-cases (k == key)) [
  | inl here ↦
      let same = ==→≡ k key here in
      let before = no_mint l key t read in
      let owned = account_of-owner l key t read in rw (here, same, owned) (rw owned at (sym before))
  | inr elsewhere ↦ rw elsewhere refl
]

take_out-mint_at :
    (key n : ℕ) (l l' : Ledger)
    → take_out key n l ≡ ok l'
    → (k : ℕ) → mint_at rt l' k ≡ mint_at rt l k
take_out-mint_at key n l l' h k =
    let (t, read, _, same) = take_out-effect key n l l' h in
    rw same (mint_at-token_write l key t (record t { amount = t.amount - n }) read k)

put_in-mint_at :
    (key n : ℕ) (l l' : Ledger)
    → put_in key n l ≡ ok l'
    → (k : ℕ) → mint_at rt l' k ≡ mint_at rt l k
put_in-mint_at key n l l' h k =
    let (t, read, _, same) = put_in-effect key n l l' h in
    rw same (mint_at-token_write l key t (record t { amount = t.amount + n }) read k)

mint_at-write :
    (l : Ledger) (key : ℕ) (m m' : Mint)
    → mint_account l key ≡ ok m
    → (k : ℕ)
    → mint_at rt (write_bytes l key (mint_bytes m')) k
      ≡ (if k == key then some m' else mint_at rt l k)
unfolding mint_at write_bytes
mint_at-write l key m m' read k = elim (Bool-cases (k == key)) [
  | inl here ↦
      let same = ==→≡ k key here in
      let owned = mint_account-owner l key m read in rw (here, same, owned) refl
  | inr elsewhere ↦ rw elsewhere refl
]

write-MintsAtMost :
    (gained : ℕ → ℕ) (l : Ledger) (key s : ℕ) (m : Mint)
    → mint_account l key ≡ ok m
    → s ≤ m.supply + gained key
    → MintsAtMost rt gained l (write_bytes l key (mint_bytes (record m { supply = s })))
write-MintsAtMost gained l key s m read bound k u e =
    let m' = record m { supply = s } in
    let after = mint_at-write l key m m' read k in
    elim (Bool-cases (k == key)) [
      | inl here ↦
          let same = ==→≡ k key here in
          let read' = mint_at-mint_account l k u e in
          let is : u ≡ m = ground (arith, rw same at read') in
          (m', rw here at after, ap (λ (x : Mint). x.mint_authority) (sym is), rw (is, same) bound)
      | inr elsewhere ↦ (u, (rw elsewhere at after) ∙ e, refl, omega arith)
    ]

run_token-MintsAtMost :
    (call : TokenInstruction) (l l' : Ledger)
    → run_token call l ≡ ok l'
    → MintsAtMost rt (minted_by call) l l'
run_token-MintsAtMost (transfer p source destination _ n) l l' h = λ k m e.
    let (l1, takes, puts) = >>=-eq-ok (take_out source n l) _ h in
    (
      m,
      put_in-mint_at destination n l1 l' puts k ∙ take_out-mint_at source n l l1 takes k ∙ e,
      refl,
      omega arith,
    )
run_token-MintsAtMost (mint_to p mint destination authority n) l l' h = λ k m e.
    let (l1, mints, puts) = >>=-eq-ok (mint_more mint authority n l) _ h in
    let (m0, read, _, same) = mint_more-effect mint authority n l l1 mints in
    let itself : (mint == mint) ≡ true = ground arith in
    let (m', there, authority', less) =
      write-MintsAtMost (λ k. if k == mint then n else 0) l mint (m0.supply + n) m0 read
        (rw itself (omega arith)) k m e in
    (m', put_in-mint_at destination n l1 l' puts k ∙ (rw (← same) at there), authority', less)
run_token-MintsAtMost (burn p source mint _ n) l l' h = λ k m e.
    let (l1, takes, burns) = >>=-eq-ok (take_out source n l) _ h in
    let (m0, read, _, same) = mint_less-effect mint n l1 l' burns in
    let (m', there, authority', less) =
      write-MintsAtMost (λ k. 0) l1 mint (m0.supply - n) m0 read (omega arith) k m
        (take_out-mint_at source n l l1 takes k ∙ e) in
    (m', rw (← same) at there, authority', less)

run-run_token :
    (call : TokenInstruction) (l l' : Ledger) → run call l ≡ ok l' → run_token call l ≡ ok l'
run-run_token call l l' h = elim (Bool-cases (program_of call == 12)) [
  | inl token ↦ rw token at h
  | inr not_token ↦ let h0 = rw not_token at h in cc
]

nothing_minted :
    (call : TokenInstruction) (l l' : Ledger) (k : ℕ) (m : Mint)
    → signs_for call l ≡ true
    → run_token call l ≡ ok l'
    → mint_account l k ≡ ok m
    → 254 ≤ m.mint_authority
    → minted_by call k ≡ 0
nothing_minted (transfer _ _ _ _ _) l l' k m signs h read high = refl
nothing_minted (mint_to p mint destination authority n) l l' k m signs h read high =
    elim (Bool-cases (k == mint)) [
      | inl here ↦ absurd (
          let same = ==→≡ k mint here in
          let (l1, mints, _) = >>=-eq-ok (mint_more mint authority n l) _ h in
          let (m0, read0, is, _) = mint_more-effect mint authority n l l1 mints in
          let read' = rw same at read in
          let which : m ≡ m0 = ground (arith, read0, read') in
          let high' = rw which at high in ground (arith, signs, is, high'))
      | inr elsewhere ↦ rw elsewhere refl
    ]
nothing_minted (burn _ _ _ _ _) l l' k m signs h read high = refl

-- A plain call mints nothing for a derived key.
run_plain-MintsNothing :
    (program_id : ℕ) (call : TokenInstruction) (l l' : Ledger)
    → run_plain call l ≡ ok l'
    → MintsNothing rt program_id l l'
run_plain-MintsNothing program_id call l l' h k m e authority =
    let (signs, runs) = run_plain-run call l l' h in
    let (m', there, same, less) =
      run_token-MintsAtMost call l l' (run-run_token call l l' runs) k m e in
    let high = IsAuthority-le program_id m.mint_authority authority in
    let none_minted =
      nothing_minted call l l' k m signs (run-run_token call l l' runs)
        (mint_at-mint_account l k m e) high in
    (m', there, same, omega arith)

burnt_supply :
    (m m' m0 : Mint) (n : ℕ)
    → m ≡ m0
    → n ≤ m0.supply
    → some m' ≡ some (record m0 { supply = m0.supply - n })
    → m'.supply + n ≡ m.supply
burnt_supply m m' m0 n same covered e = ground arith

burnt :
    (p source mint authority n : ℕ) (l l' : Ledger)
    → run_plain (burn p source mint authority n) l ≡ ok l'
    → (m m' : Mint) → mint_at rt l mint ≡ some m
    → mint_at rt l' mint ≡ some m'
    → m'.supply + n ≡ m.supply
burnt p source mint authority n l l' h m m' before after =
    let (_, runs) = run_plain-run (burn p source mint authority n) l l' h in
    let (l1, takes, burns) =
      >>=-eq-ok (take_out source n l) _
        (run-run_token (burn p source mint authority n) l l' runs) in
    let (m0, read, covered, made) = mint_less-effect mint n l1 l' burns in
    let itself : (mint == mint) ≡ true = ground arith in
    let there = mint_at-write l1 mint m0 (record m0 { supply = m0.supply - n }) read mint in
    let now = rw (← made, itself, after) at there in
    let read' =
      mint_at-mint_account l1 mint m (take_out-mint_at source n l l1 takes mint ∙ before) in
    let same : m ≡ m0 = ground (arith, read, read') in burnt_supply m m' m0 n same covered now

built-same :
    (call : TokenInstruction) {i : TokenInstruction}
    → (if program_of call == 12 then ok call else err (other 5)) ≡ ok i
    → i ≡ call
built-same call h = ground arith

pub rt-TokenLaws : (program_id : ℕ) → TokenLaws rt program_id
rt-TokenLaws program_id = record {
  builds = built-same;
  signed = λ call key bump_seed l l' h. run-LosesAtMost call l l' h;
  unsigned = run_plain-SparesAuthorities program_id;
  arrives = transfer-arrives;
  mints = λ call key bump_seed l l' h. run_token-MintsAtMost call l l' (run-run_token call l l' h);
  mints_nothing = run_plain-MintsNothing program_id;
  burns = burnt;
}
