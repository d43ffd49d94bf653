-- ===== src/Processor/Runtime.antt =====
-- What the handlers call that is not of this repository: the Solana runtime, its sysvars and address
-- derivation, the provided methods of `Pack`, the SPL token program, and the layout of the oracle's
-- accounts, which src/pyth.rs copies from another project.
use allwinprotocol.Base.{ℕ, Bool, List, ◌≡◌, ◌≢◌, Fits, length, ◌==◌, if◌then◌else◌}
use allwinprotocol.Base.Integers.{ℤ}
use allwinprotocol.Error.{Result, ok, err, ProgramError, invalid_account_data, ◌>>=◌}
use allwinprotocol.State.Common.{Pubkey, Slot}

-- What the ledger holds under a key.
pub record Account : Type 0 where
  pub owner : Pubkey
  pub lamports : ℕ
  pub bytes : List ℕ

-- Accounts that an instruction names twice are the same account here.
abbrev pub Ledger : Type 0
Ledger = Pubkey → Account

-- An account as it is passed to an instruction.
pub record AccountInfo : Type 0 where
  pub key : Pubkey
  pub is_signer : Bool

-- `spl_token::state::Account`, as far as it is read
pub record TokenAccount : Type 0 where
  pub mint : Pubkey
  pub owner : Pubkey
  pub amount : ℕ

-- `spl_token::state::Mint`: the code reads the decimals only, and relies on the token program for the
-- supply and for who may mint.
pub record Mint : Type 0 where
  pub decimals : ℕ
  pub supply : ℕ
  pub mint_authority : Pubkey

-- `pyth::PriceType`, and `pyth::Price` as far as it is read: `price` is `agg.price`.
pub data PriceType : Type 0 where
  unknown_type price_type : PriceType

pub record Price : Type 0 where
  pub ptype : PriceType
  pub price : ℤ
  pub expo : ℤ

-- `pyth::Product`: `px_acc` is a key, and `attr` the 464 bytes of its attributes.
pub record Product : Type 0 where
  pub magic : ℕ
  pub ver : ℕ
  pub atype : ℕ
  pub px_acc : Pubkey
  pub attr : List ℕ

-- The instructions to the token program, with the program's id first and the amount last.
pub data TokenInstruction : Type 0 where
  transfer : (token_program source destination authority : Pubkey) (amount : ℕ) → TokenInstruction
  mint_to : (token_program mint destination authority : Pubkey) (amount : ℕ) → TokenInstruction
  burn : (token_program source mint authority : Pubkey) (amount : ℕ) → TokenInstruction

pub record Runtime : Type 1 where
  -- `Clock::from_account_info`, and its slot
  pub clock_slot : AccountInfo → Ledger → Result Slot
  -- `Rent::from_account_info`, and its `is_exempt` of lamports and a length
  pub rent_is_exempt : AccountInfo → Ledger → Result (ℕ → ℕ → Bool)
  -- `pyth::load` of prices and products
  pub load_price : List ℕ → Result Price
  pub load_product : List ℕ → Result Product
  -- `Pubkey::find_program_address(&[key], program_id).1`
  pub find_bump_seed : Pubkey → Pubkey → ℕ
  -- `next_account_info` at the end of the accounts
  pub not_enough_account_keys : ProgramError
  -- `Pubkey::create_program_address(&[key, &[bump_seed]], program_id)`
  pub create_program_address : Pubkey → ℕ → Pubkey → Result Pubkey
  -- `Pack::unpack`, at the length, `unpack_from_slice` and `is_initialized` of the type
  pub unpack : {T : Type 0} → ℕ → (List ℕ → Result T) → (T → Bool) → List ℕ → Result T
  -- `Pack::unpack_unchecked`, at the length and `unpack_from_slice` of the type
  pub unpack_unchecked : {T : Type 0} → ℕ → (List ℕ → Result T) → List ℕ → Result T
  -- `Pack::pack`, at the length and `pack_into_slice` of the value
  pub pack : ℕ → (List ℕ → Result (List ℕ)) → List ℕ → Result (List ℕ)
  -- `spl_token::state::Account::unpack`
  pub unpack_token_account : List ℕ → Result TokenAccount
  -- `spl_token::state::Mint::unpack`, and `spl_token::id`
  pub unpack_mint_account : List ℕ → Result Mint
  pub spl_token_id : Pubkey
  -- `spl_token::instruction::{transfer, mint_to, burn}`, which check the program's id
  pub instruction : TokenInstruction → Result TokenInstruction
  -- `invoke`, and `invoke_signed` with the authority's seeds: the key and the bump seed
  pub invoke : TokenInstruction → Ledger → Result Ledger
  pub invoke_signed : TokenInstruction → Pubkey → ℕ → Ledger → Result Ledger

-- The documented behaviour of the token program: an account's amount is a u64.
pub record RuntimeLaws (rt : Runtime) : Type 0 where
  pub amount-Fits :
      (input : List ℕ) {account : TokenAccount}
      → rt.unpack_token_account input ≡ ok account
      → Fits 64 account.amount

-- The program that an instruction calls
abbrev pub program_of : TokenInstruction → Pubkey
program_of (transfer token_program _ _ _ _) = token_program
program_of (mint_to token_program _ _ _ _) = token_program
program_of (burn token_program _ _ _ _) = token_program

-- The provided methods of `Pack`: the length must be the type's, and `unpack` wants a value that is
-- initialised.
pub record PackLaws (rt : Runtime) : Type 1 where
  pub uninitialized_account : ProgramError
  pub unpack-eq :
      {T : Type 0} (len : ℕ) (unpack_from_slice : List ℕ → Result T) (is_initialized : T → Bool)
      (input : List ℕ)
      → rt.unpack len unpack_from_slice is_initialized input ≡ (
          if length input == len
          then (unpack_from_slice input >>= λ value.
              if is_initialized value then ok value else err uninitialized_account)
          else err invalid_account_data)
  pub unpack_unchecked-eq :
      {T : Type 0} (len : ℕ) (unpack_from_slice : List ℕ → Result T) (input : List ℕ)
      → rt.unpack_unchecked len unpack_from_slice input
        ≡ (if length input == len then unpack_from_slice input else err invalid_account_data)
  pub pack-eq :
      (len : ℕ) (pack_into_slice : List ℕ → Result (List ℕ)) (dst : List ℕ)
      → rt.pack len pack_into_slice dst
        ≡ (if length dst == len then pack_into_slice dst else err invalid_account_data)

-- A call of a program gives no account away, and writes to the accounts that the program owns.
abbrev pub IsCall : Pubkey → Ledger → Ledger → Type 0
IsCall program ledger ledger' =
    (key : Pubkey)
    → ((ledger' key).owner ≡ (ledger key).owner)
      × ((ledger key).owner ≢ program → ledger' key ≡ ledger key)

-- The builders of instructions accept the token program only, and a call runs the program that its
-- instruction names.
pub record CallLaws (rt : Runtime) : Type 0 where
  pub instruction-eq :
      (call : TokenInstruction) {built : TokenInstruction}
      → rt.instruction call ≡ ok built
      → program_of built ≡ rt.spl_token_id
  pub invoke-IsCall :
      (call : TokenInstruction) (ledger ledger' : Ledger)
      → rt.invoke call ledger ≡ ok ledger'
      → IsCall (program_of call) ledger ledger'
  pub invoke_signed-IsCall :
      (call : TokenInstruction) (key : Pubkey) (bump_seed : ℕ) (ledger ledger' : Ledger)
      → rt.invoke_signed call key bump_seed ledger ≡ ok ledger'
      → IsCall (program_of call) ledger ledger'
