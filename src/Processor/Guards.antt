-- ===== src/Processor/Guards.antt =====
-- The checks that the handlers of new accounts share (`assert_rent_exempt`, `assert_uninitialized` and
-- `unpack_mint` of src/processor.rs).
use allwinprotocol.Base.{ℕ, Bool, not, List, length}
use allwinprotocol.Error.{
  Result, not_rent_exempt, already_initialized, invalid_token_mint, ok, ◌>>=◌, ◌>>◌,
}
use allwinprotocol.Processor.Runtime.{Account, Mint, Runtime}
use allwinprotocol.Processor.Accounts.{reject_if, map_err}

-- `rent.is_exempt` is the first argument.
unfoldable pub assert_rent_exempt : (ℕ → ℕ → Bool) → Account → Result (Unit {0})
assert_rent_exempt is_exempt account =
    reject_if (not (is_exempt account.lamports (length account.bytes))) not_rent_exempt

module _ (rt : Runtime) where
  -- At the length, the `unpack_from_slice` and the `is_initialized` of the type
  unfoldable pub assert_uninitialized :
      {T : Type 0} → ℕ → (List ℕ → Result T) → (T → Bool) → List ℕ → Result T
  assert_uninitialized len unpack_from_slice is_initialized bytes = do
    account ← rt.unpack_unchecked len unpack_from_slice bytes
    reject_if (is_initialized account) already_initialized
    ok account

  unfoldable pub unpack_mint : List ℕ → Result Mint
  unpack_mint bytes = map_err (rt.unpack_mint_account bytes) invalid_token_mint
