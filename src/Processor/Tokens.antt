-- ===== src/Processor/Tokens.antt =====
-- Token accounts as the handlers of src/processor.rs rely on them: who may take tokens out of one, and
-- what the instructions of the SPL token program do to them.
use allwinprotocol.Base.{ℕ, ◌+◌, ◌≤◌, ◌≡◌, ◌≢◌, Option, none, some, ◌==◌, if◌then◌else◌}
use allwinprotocol.Error.{ok}
use allwinprotocol.State.Common.{Pubkey}
use allwinprotocol.Processor.Runtime.{
  Ledger, TokenAccount, Mint, TokenInstruction, transfer, mint_to, burn, Runtime,
}

-- The token account at a key: an account of the token program that `Account::unpack` reads.
unfoldable pub token_at : Runtime → Ledger → Pubkey → Option TokenAccount
token_at rt ledger key =
    if (ledger key).owner == rt.spl_token_id
    then elim (rt.unpack_token_account (ledger key).bytes) [ ok account ↦ some account | _ ↦ none ]
    else none

-- The mint at a key
unfoldable pub mint_at : Runtime → Ledger → Pubkey → Option Mint
mint_at rt ledger key =
    if (ledger key).owner == rt.spl_token_id
    then elim (rt.unpack_mint_account (ledger key).bytes) [ ok mint ↦ some mint | _ ↦ none ]
    else none

-- A key that the program derives, which has no signature of its own.
pub record IsAuthority (rt : Runtime) (program_id authority : Pubkey) : Type 0 where
  pub key : Pubkey
  pub bump_seed : ℕ
  pub derived : rt.create_program_address key bump_seed program_id ≡ ok authority

-- How many tokens an instruction takes out of an account
abbrev pub taken_from : TokenInstruction → Pubkey → ℕ
taken_from (transfer _ source _ _ amount) key = if key == source then amount else 0
taken_from (mint_to _ _ _ _ _) key = 0
taken_from (burn _ source _ _ amount) key = if key == source then amount else 0

-- Token accounts stay, with their owners, and lose no more than `lost` says.
abbrev pub LosesAtMost : Runtime → (Pubkey → ℕ) → Ledger → Ledger → Type 0
LosesAtMost rt lost ledger ledger' =
    (key : Pubkey) (t : TokenAccount)
    → token_at rt ledger key ≡ some t
    → (t' : TokenAccount) × (token_at rt ledger' key ≡ some t')
      × (t'.owner ≡ t.owner)
      × (t.amount ≤ t'.amount + lost key)

-- Nothing is taken out of the accounts of the keys that the program derives.
abbrev pub SparesAuthorities : Runtime → Pubkey → Ledger → Ledger → Type 0
SparesAuthorities rt program_id ledger ledger' =
    (key : Pubkey) (t : TokenAccount)
    → token_at rt ledger key ≡ some t
    → IsAuthority rt program_id t.owner
    → (t' : TokenAccount) × (token_at rt ledger' key ≡ some t')
      × (t'.owner ≡ t.owner)
      × (t.amount ≤ t'.amount)

-- How many tokens an instruction adds to those of a mint
abbrev pub minted_by : TokenInstruction → Pubkey → ℕ
minted_by (transfer _ _ _ _ _) key = 0
minted_by (mint_to _ mint _ _ amount) key = if key == mint then amount else 0
minted_by (burn _ _ _ _ _) key = 0

-- Mints stay, with their authorities, and gain no more than `gained` says.
abbrev pub MintsAtMost : Runtime → (Pubkey → ℕ) → Ledger → Ledger → Type 0
MintsAtMost rt gained ledger ledger' =
    (key : Pubkey) (m : Mint)
    → mint_at rt ledger key ≡ some m
    → (m' : Mint) × (mint_at rt ledger' key ≡ some m')
      × (m'.mint_authority ≡ m.mint_authority)
      × (m'.supply ≤ m.supply + gained key)

-- Nothing is minted for the keys that the program derives.
abbrev pub MintsNothing : Runtime → Pubkey → Ledger → Ledger → Type 0
MintsNothing rt program_id ledger ledger' =
    (key : Pubkey) (m : Mint)
    → mint_at rt ledger key ≡ some m
    → IsAuthority rt program_id m.mint_authority
    → (m' : Mint) × (mint_at rt ledger' key ≡ some m')
      × (m'.mint_authority ≡ m.mint_authority)
      × (m'.supply ≤ m.supply)

-- The documented behaviour of the token program: the builders build what they are asked for; an
-- instruction takes its amount out of its source at most, and mints at most what it says; it needs the
-- signature of the source's owner or of the mint's authority, which a plain call cannot give for a
-- derived key; a transfer between two accounts arrives, and burning takes its amount off the supply.
pub record TokenLaws (rt : Runtime) (program_id : Pubkey) : Type 0 where
  pub builds :
      (call : TokenInstruction) {built : TokenInstruction}
      → rt.instruction call ≡ ok built
      → built ≡ call
  pub signed :
      (call : TokenInstruction) (key : Pubkey) (bump_seed : ℕ) (ledger ledger' : Ledger)
      → rt.invoke_signed call key bump_seed ledger ≡ ok ledger'
      → LosesAtMost rt (taken_from call) ledger ledger'
  pub unsigned :
      (call : TokenInstruction) (ledger ledger' : Ledger)
      → rt.invoke call ledger ≡ ok ledger'
      → SparesAuthorities rt program_id ledger ledger'
  pub arrives :
      (token_program source destination authority : Pubkey) (amount : ℕ) (ledger ledger' : Ledger)
      → rt.invoke (transfer token_program source destination authority amount) ledger ≡ ok ledger'
      → destination ≢ source
      → (t t' : TokenAccount) → token_at rt ledger destination ≡ some t
      → token_at rt ledger' destination ≡ some t'
      → t'.amount ≡ t.amount + amount
  pub mints :
      (call : TokenInstruction) (key : Pubkey) (bump_seed : ℕ) (ledger ledger' : Ledger)
      → rt.invoke_signed call key bump_seed ledger ≡ ok ledger'
      → MintsAtMost rt (minted_by call) ledger ledger'
  pub mints_nothing :
      (call : TokenInstruction) (ledger ledger' : Ledger)
      → rt.invoke call ledger ≡ ok ledger'
      → MintsNothing rt program_id ledger ledger'
  pub burns :
      (token_program source mint authority : Pubkey) (amount : ℕ) (ledger ledger' : Ledger)
      → rt.invoke (burn token_program source mint authority amount) ledger ≡ ok ledger'
      → (m m' : Mint) → mint_at rt ledger mint ≡ some m
      → mint_at rt ledger' mint ≡ some m'
      → m'.supply + amount ≡ m.supply
