-- ===== src/Lib.antt =====
-- The on-chain program of the allwin protocol: pools that take a token and give shares, tickets and
-- mining accounts that earn rewards on the shares, and the instructions that run them.
--
-- The files, and the sources that they model (paths from the repository's root):
-- - Base: Boolean tests, lists over the native numbers, checked operations at a width in bits, and
--   well-founded recursion. `U128`, `U192` and the primitive integers are natural numbers with the bound
--   of their width at each checked operation.
-- - Error (src/error.rs): the error codes, their messages, and `Result`, in which a panic is a value of
--   its own.
-- - Math/Rate, Math/Decimal (src/math/rate.rs, decimal.rs, common.rs): fixed-point numbers, one function
--   for each method and each instance of a trait (`try_mul_u64` for `TryMul<u64>`). Math/Rounding and
--   Math/Pow are about their bounds, and Math/Display about the text of a number.
-- - State/LastUpdate (src/state/last_update.rs), State/Liquidity, State/Collateral and State/Pool
--   (src/state/pool.rs), State/Ticket (src/state/ticket.rs), State/Mining (src/state/mining.rs) and
--   State/PoolManager (src/state/pool_manager.rs): a record for each struct and a function for each
--   method. A method that changes `self` returns the new value; one that fails returns none, since every
--   caller leaves by `?` and drops its copy. State/Positions is the search in a list of positions that
--   tickets and mining accounts share.
-- - State/Codec (src/state/mod.rs) and the Pack modules: the bytes of each account. A byte is a number, a
--   key is the number of its 32 bytes, and `array_refs` and `write_fields` are the splits that the macros
--   of the arrayref crate write out.
-- - UnpackUtil (src/unpack_util.rs), Instruction (src/instruction.rs): the parser of instructions.
--   Instruction/Encoding says which bytes stand for an instruction.
-- - Processor (src/processor.rs): the handlers, one file for each, and Dispatch for the choice among
--   them. Processor/Runtime holds what they call from other code, as a record of functions that the
--   handlers take as a parameter: the clock and the rent, the derivation of addresses, `Pack::pack` and
--   `Pack::unpack` with the program's own methods as their arguments, the token program, and
--   `pyth::load`, since src/pyth.rs is a copy of another project's layout. Its records of laws state
--   the documented behaviour that theorems name as a hypothesis: amounts of 64 bits, the length checks
--   of `Pack`, and that a call of the token program writes to that program's accounts only. A ledger is
--   a function from keys to accounts. Processor/Exchange has what deposits and redemptions share,
--   Processor/Steps what a handler does to the pool, and Processor/Principal what a sequence of these
--   steps does to it; the Progress files say when a deposit and a redemption succeed. Processor/Oracle
--   reads prices and products, and Processor/Guards has the checks of the handlers that create accounts.
-- - Processor/Vault: the abstract view of the whole program. `funds` forgets all of a ledger but the
--   tokens of each pool, `VaultStep` says what an instruction may do to them, and `Reachable` is any
--   history of instructions and of other programs' changes. Storage, Stores and Calls say what writes
--   and calls do to the pools, and the other files go through the handlers one by one.
-- - Processor/Tokens and Processor/Solvency: the token accounts and mints behind the pools. TokenLaws
--   states what the handlers rely on of the token program; `IsSolvent` is the invariant that relates a
--   pool to its supply account and its mint, and `Operated` a history in which pools are opened with
--   supply accounts and mints of their own. Holdings and Shares say what a call leaves in an account and
--   of a mint, Effects what a handler does, Places is about accounts of one pool each, Exchanges and
--   Others go through the handlers, and Program puts them together.
-- - Processor/Entrypoint (src/entrypoint.rs): the program's entry.
-- - Tests: the theorems at concrete inputs, with a small runtime whose token program checks balances,
--   widths and signatures.
--
-- An instruction is a call of a handler; the handler reads the pool and its manager from the ledger,
-- calls one method of the pool, stores the pool, and then calls the token program. Rewards accrue in the
-- pool's index, and a ticket or a mining account takes its part of the growth when it is refreshed.
--
-- The loop of `try_pow` is recursion on the halved exponent, and the loop over a product's attributes is
-- recursion on the distance to their end, both well-founded and with no fuel; all other loops run over a
-- list or a counter.
--
-- Not modelled: the layout of the oracle's accounts (src/pyth.rs), what is logged, and the unit tests.
-- The digits that `Display` prints of a wide integer are a parameter. Solana's rule that a failing
-- instruction leaves the ledger as it was is built in: a handler that fails returns no ledger.
pub mod Base
pub mod Error
pub mod Math
pub mod State
pub mod UnpackUtil
pub mod Instruction
pub mod Processor
pub mod Tests
