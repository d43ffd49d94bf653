-- ===== src/Processor/Entrypoint.antt =====
-- The program's entry (src/entrypoint.rs): the error of an instruction is printed and passed on. What is
-- printed has no effect, and is left out.
use allwinprotocol.Base.{ℕ, List}
use allwinprotocol.Error.{Result, ok, err, panic}
use allwinprotocol.State.Common.{Pubkey}
use allwinprotocol.Processor.Runtime.{Ledger, AccountInfo, Runtime}
use allwinprotocol.Processor.Dispatch.{process_instruction}

unfoldable pub entrypoint : Runtime → Pubkey → List AccountInfo → List ℕ → Ledger → Result Ledger
unfolding process_instruction
entrypoint rt program_id accounts instruction_data ledger =
    elim (process_instruction rt program_id accounts instruction_data ledger) [
      | err error ↦ err error
      | ok ledger' ↦ ok ledger'
      | panic ↦ panic
    ]
