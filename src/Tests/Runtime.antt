-- ===== src/Tests/Runtime.antt =====
-- A small runtime and ledger for the handlers: token accounts are lists of a mint, an owner and an
-- amount.
use allwinprotocol.Base.{
  ℕ, ◌+◌, ◌-◌, ◌^◌, List, [], ◌∷◌, ◌++◌, Bool, true, false, leb, ltb, ◌==◌, if◌then◌else◌, length,
  replicate,
}
use allwinprotocol.Error.{Result, ok, err, panic, invalid_account_data, other, ◌>>=◌}
use allwinprotocol.State.Codec.{write_fields}
use allwinprotocol.State.Pool.{Pool}
use allwinprotocol.State.Pool.Pack as PoolPack
use allwinprotocol.State.PoolManager.Pack as ManagerPack
use allwinprotocol.Processor.Runtime.{
  Ledger, AccountInfo, TokenAccount, Mint, TokenInstruction, transfer, mint_to, burn, Runtime,
  program_of, Price, Product, price_type, unknown_type,
}
use allwinprotocol.Base.Integers.{pos, negsuc}
use allwinprotocol.Processor.Accounts.{write_bytes}
use allwinprotocol.Tests.Data.{pool, manager}

abbrev pub read_token : List ℕ → Result TokenAccount
read_token (mint ∷ owner ∷ amount ∷ []) =
    if ltb amount (2 ^ 64)
    then ok (record { mint = mint; owner = owner; amount = amount })
    else err (other 2)
read_token _ = err (other 2)

abbrev pub token_bytes : TokenAccount → List ℕ
token_bytes t = t.mint ∷ t.owner ∷ t.amount ∷ []

abbrev pub account_of : Ledger → ℕ → Result TokenAccount
account_of l key = if (l key).owner == 12 then read_token (l key).bytes else err (other 2)

abbrev pub take_out : ℕ → ℕ → Ledger → Result Ledger
take_out key n l = account_of l key >>= λ t.
    if leb n t.amount
    then ok (write_bytes l key (token_bytes (record t { amount = t.amount - n })))
    else err (other 7)

abbrev pub put_in : ℕ → ℕ → Ledger → Result Ledger
put_in key n l = account_of l key >>= λ t.
    if ltb (t.amount + n) (2 ^ 64)
    then ok (write_bytes l key (token_bytes (record t { amount = t.amount + n })))
    else err (other 8)

-- A mint is a list of its decimals, its supply, its authority and a zero.
abbrev pub read_mint : List ℕ → Result Mint
read_mint (decimals ∷ supply ∷ authority ∷ last ∷ []) =
    ok (record { decimals = decimals; supply = supply; mint_authority = authority })
read_mint _ = err (other 4)

abbrev pub mint_bytes : Mint → List ℕ
mint_bytes m = m.decimals ∷ m.supply ∷ m.mint_authority ∷ 0 ∷ []

abbrev pub mint_account : Ledger → ℕ → Result Mint
mint_account l key = if (l key).owner == 12 then read_mint (l key).bytes else err (other 4)

abbrev pub mint_more : ℕ → ℕ → ℕ → Ledger → Result Ledger
mint_more key authority n l = mint_account l key >>= λ m.
    if m.mint_authority == authority
    then ok (write_bytes l key (mint_bytes (record m { supply = m.supply + n })))
    else err (other 10)

abbrev pub mint_less : ℕ → ℕ → Ledger → Result Ledger
mint_less key n l = mint_account l key >>= λ m.
    if leb n m.supply
    then ok (write_bytes l key (mint_bytes (record m { supply = m.supply - n })))
    else err (other 11)

abbrev pub run_token : TokenInstruction → Ledger → Result Ledger
run_token (transfer _ source destination _ n) l = take_out source n l >>= put_in destination n
run_token (mint_to _ mint destination authority n) l =
    mint_more mint authority n l >>= put_in destination n
run_token (burn _ source mint _ n) l = take_out source n l >>= mint_less mint n

abbrev pub run : TokenInstruction → Ledger → Result Ledger
run i l = if program_of i == 12 then run_token i l else err (other 5)

-- The keys from 254 on are derived and sign no plain call.
abbrev pub signs_for : TokenInstruction → Ledger → Bool
signs_for (transfer _ source _ _ _) l = elim (account_of l source) [
  | ok t ↦ ltb t.owner 254
  | _ ↦ false
]
signs_for (mint_to _ _ _ authority _) l = ltb authority 254
signs_for (burn _ source _ _ _) l = elim (account_of l source) [
  | ok t ↦ ltb t.owner 254
  | _ ↦ false
]

abbrev pub run_plain : TokenInstruction → Ledger → Result Ledger
run_plain i l = if signs_for i l then run i l else err (other 9)

-- A price, and its exponent below zero
abbrev pub read_price : List ℕ → Result Price
read_price (ptype ∷ price ∷ decimals ∷ []) = ok (record {
  ptype = if ptype == 1 then price_type else unknown_type;
  price = pos price;
  expo = if decimals == 0 then pos 0 else negsuc (decimals - 1);
})
read_price _ = panic

abbrev pub read_product : List ℕ → Result Product
read_product (magic ∷ ver ∷ atype ∷ px_acc ∷ attr) =
    ok (record { magic = magic; ver = ver; atype = atype; px_acc = px_acc; attr = attr })
read_product _ = panic

abbrev pub rt : Runtime
rt = record {
  clock_slot = λ info ledger. ok 100;
  not_enough_account_keys = other 1;
  create_program_address =
      λ key bump_seed program_id. if bump_seed == 254 then ok (key + 254) else err (other 6);
  unpack = λ len f is_initialized bytes.
      if length bytes == len
      then (f bytes >>= λ t. if is_initialized t then ok t else err (other 3))
      else err invalid_account_data;
  pack = λ len f bytes. if length bytes == len then f bytes else err invalid_account_data;
  unpack_token_account = read_token;
  rent_is_exempt = λ info ledger. ok (λ lamports len. leb len lamports);
  load_price = read_price;
  load_product = read_product;
  find_bump_seed = λ key program_id. 254;
  unpack_unchecked =
      λ len f bytes. if length bytes == len then f bytes else err invalid_account_data;
  unpack_mint_account = read_mint;
  spl_token_id = 12;
  instruction = λ i. if program_of i == 12 then ok i else err (other 5);
  invoke = run_plain;
  invoke_signed = λ i manager bump_seed ledger. run i ledger;
}

abbrev pub pool_bytes : Pool → List ℕ
pool_bytes p = write_fields (PoolPack.own_fields p) ++ replicate (PoolPack.reserve_len - 398) 0

abbrev pub manager_bytes : List ℕ
manager_bytes =
    write_fields (ManagerPack.fields manager) ++ replicate (ManagerPack.pool_manager_len - 226) 0

-- The program has the key 900 and the token program 12. Key 1 is the user's account of the pool's token,
-- 2 the user's account of its shares, 3 the pool, 11 the pool manager and 31 the mint of the shares.
abbrev pub ledger : Ledger
ledger = λ k.
    if k == 1
    then record { owner = 12; lamports = 1000; bytes = 21 ∷ 61 ∷ 700 ∷ [] }
    else if k == 2
    then record { owner = 12; lamports = 1000; bytes = 31 ∷ 61 ∷ 40 ∷ [] }
    else if k == 3
    then record { owner = 900; lamports = 1000; bytes = pool_bytes (pool 1000 1000) }
    else if k == 11
    then record { owner = 900; lamports = 1000; bytes = manager_bytes }
    else if k == 31
    then record { owner = 12; lamports = 1000; bytes = 6 ∷ 1000 ∷ 265 ∷ 0 ∷ [] }
    else record { owner = 12; lamports = 1000; bytes = k ∷ 900 ∷ 1000 ∷ [] }

abbrev pub account : ℕ → AccountInfo
account k = record { key = k; is_signer = true }
