-- ===== src/Tests/RuntimeLaws.antt =====
-- The runtime of the tests has the documented behaviour.
use allwinprotocol.Base.{
  ℕ, ◌+◌, ◌-◌, ◌≤◌, ◌≡◌, true, refl, ◌∙◌, List, arith, Fits, ◌==◌, ==→≡, if◌then◌else◌, Bool-cases,
  inl, inr,
}
use allwinprotocol.Error.{ok, err, other, >>=-eq-ok}
use allwinprotocol.Processor.Runtime.{
  Ledger, TokenAccount, Mint, TokenInstruction, transfer, mint_to, burn, program_of, IsCall,
  RuntimeLaws, PackLaws, CallLaws,
}
use allwinprotocol.Processor.Accounts.{write_bytes}
use allwinprotocol.Tests.Runtime.{
  read_token, mint_account, mint_more, mint_less, mint_bytes, account_of, take_out, put_in,
  token_bytes, run_token, run, run_plain, signs_for, rt,
}
use allwinprotocol.Processor.Solvency.Writes.{write_bytes-IsCall}

read_token-Fits : (bytes : List ℕ) {t : TokenAccount} → read_token bytes ≡ ok t → Fits 64 t.amount
read_token-Fits bytes e = ground arith

pub rt-laws : RuntimeLaws rt
rt-laws = record { amount-Fits = read_token-Fits }

pub rt-PackLaws : PackLaws rt
rt-PackLaws = record {
  uninitialized_account = other 3;
  unpack-eq = λ len f is_initialized input. refl;
  unpack_unchecked-eq = λ len f input. refl;
  pack-eq = λ len f dst. refl;
}

built-program :
    (call : TokenInstruction) {i : TokenInstruction}
    → (if program_of call == 12 then ok call else err (other 5)) ≡ ok i
    → program_of i ≡ 12
built-program call {i} h = elim (Bool-cases (program_of call == 12)) [
  | inl token ↦
      let same : call ≡ i = ground (arith, rw token at h) in
      rw (← same) (==→≡ (program_of call) 12 token)
  | inr not_token ↦ let h0 = rw not_token at h in cc
]

-- What is done to one account.
pub take_out-effect :
    (key n : ℕ) (l l' : Ledger)
    → take_out key n l ≡ ok l'
    → (t : TokenAccount) × (account_of l key ≡ ok t)
      × (n ≤ t.amount)
      × (l' ≡ write_bytes l key (token_bytes (record t { amount = t.amount - n })))
take_out-effect key n l l' h =
    let (t, read, h1) = >>=-eq-ok (account_of l key) _ h in (t, read, ground arith, ground arith)

pub put_in-effect :
    (key n : ℕ) (l l' : Ledger)
    → put_in key n l ≡ ok l'
    → (t : TokenAccount) × (account_of l key ≡ ok t)
      × (Fits 64 (t.amount + n))
      × (l' ≡ write_bytes l key (token_bytes (record t { amount = t.amount + n })))
put_in-effect key n l l' h =
    let (t, read, h1) = >>=-eq-ok (account_of l key) _ h in (t, read, ground arith, ground arith)

pub mint_more-effect :
    (key authority n : ℕ) (l l' : Ledger)
    → mint_more key authority n l ≡ ok l'
    → (m : Mint) × (mint_account l key ≡ ok m)
      × (m.mint_authority ≡ authority)
      × (l' ≡ write_bytes l key (mint_bytes (record m { supply = m.supply + n })))
mint_more-effect key authority n l l' h =
    let (m, read, h1) = >>=-eq-ok (mint_account l key) _ h in (m, read, ground arith, ground arith)

pub mint_less-effect :
    (key n : ℕ) (l l' : Ledger)
    → mint_less key n l ≡ ok l'
    → (m : Mint) × (mint_account l key ≡ ok m)
      × (n ≤ m.supply)
      × (l' ≡ write_bytes l key (mint_bytes (record m { supply = m.supply - n })))
mint_less-effect key n l l' h =
    let (m, read, h1) = >>=-eq-ok (mint_account l key) _ h in (m, read, ground arith, ground arith)

pub mint_account-owner :
    (l : Ledger) (key : ℕ) (m : Mint) → mint_account l key ≡ ok m → (l key).owner ≡ 12
mint_account-owner l key m h = ground arith

pub account_of-owner :
    (l : Ledger) (key : ℕ) (t : TokenAccount) → account_of l key ≡ ok t → (l key).owner ≡ 12
account_of-owner l key t h = ground arith

IsCall-trans :
    (program : ℕ) (l l1 l2 : Ledger)
    → IsCall program l l1
    → IsCall program l1 l2
    → IsCall program l l2
IsCall-trans program l l1 l2 first second k =
    ((second k).0 ∙ (first k).0, λ other. (second k).1 (rw (first k).0 other) ∙ (first k).1 other)

take_out-IsCall : (key n : ℕ) (l l' : Ledger) → take_out key n l ≡ ok l' → IsCall 12 l l'
take_out-IsCall key n l l' h =
    let (t, read, _, same) = take_out-effect key n l l' h in
    rw same (write_bytes-IsCall 12 l key _ (account_of-owner l key t read))

put_in-IsCall : (key n : ℕ) (l l' : Ledger) → put_in key n l ≡ ok l' → IsCall 12 l l'
put_in-IsCall key n l l' h =
    let (t, read, _, same) = put_in-effect key n l l' h in
    rw same (write_bytes-IsCall 12 l key _ (account_of-owner l key t read))

mint_more-IsCall :
    (key authority n : ℕ) (l l' : Ledger) → mint_more key authority n l ≡ ok l' → IsCall 12 l l'
mint_more-IsCall key authority n l l' h =
    let (m, read, _, same) = mint_more-effect key authority n l l' h in
    rw same (write_bytes-IsCall 12 l key _ (mint_account-owner l key m read))

mint_less-IsCall : (key n : ℕ) (l l' : Ledger) → mint_less key n l ≡ ok l' → IsCall 12 l l'
mint_less-IsCall key n l l' h =
    let (m, read, _, same) = mint_less-effect key n l l' h in
    rw same (write_bytes-IsCall 12 l key _ (mint_account-owner l key m read))

run_token-IsCall :
    (call : TokenInstruction) (l l' : Ledger) → run_token call l ≡ ok l' → IsCall 12 l l'
run_token-IsCall (transfer p source destination _ n) l l' h =
    let (l1, takes, puts) = >>=-eq-ok (take_out source n l) _ h in
    IsCall-trans 12 l l1 l' (take_out-IsCall source n l l1 takes)
      (put_in-IsCall destination n l1 l' puts)
run_token-IsCall (mint_to p mint destination authority n) l l' h =
    let (l1, mints, puts) = >>=-eq-ok (mint_more mint authority n l) _ h in
    IsCall-trans 12 l l1 l' (mint_more-IsCall mint authority n l l1 mints)
      (put_in-IsCall destination n l1 l' puts)
run_token-IsCall (burn p source mint _ n) l l' h =
    let (l1, takes, burns) = >>=-eq-ok (take_out source n l) _ h in
    IsCall-trans 12 l l1 l' (take_out-IsCall source n l l1 takes)
      (mint_less-IsCall mint n l1 l' burns)

run-IsCall :
    (call : TokenInstruction) (l l' : Ledger) → run call l ≡ ok l' → IsCall (program_of call) l l'
run-IsCall call l l' h = elim (Bool-cases (program_of call == 12)) [
  | inl token ↦
      let same = ==→≡ (program_of call) 12 token in
      rw same (run_token-IsCall call l l' (rw token at h))
  | inr not_token ↦ let h0 = rw not_token at h in cc
]

pub run_plain-run :
    (call : TokenInstruction) (l l' : Ledger)
    → run_plain call l ≡ ok l'
    → (signs_for call l ≡ true) × (run call l ≡ ok l')
run_plain-run call l l' h = elim (Bool-cases (signs_for call l)) [
  | inl signs ↦ (signs, rw signs at h)
  | inr not ↦ let h0 = rw not at h in cc
]

pub rt-CallLaws : CallLaws rt
rt-CallLaws = record {
  instruction-eq = built-program;
  invoke-IsCall = λ call l l' h. run-IsCall call l l' (run_plain-run call l l' h).1;
  invoke_signed-IsCall = λ call key bump_seed l l' h. run-IsCall call l l' h;
}
