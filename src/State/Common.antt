-- ===== src/State/Common.antt =====
-- Constants of src/state/mod.rs, and the types of `solana_program` that every state uses. A 32-byte
-- key is the number that its bytes spell in little-endian order.
use allwinprotocol.Base.{ℕ, ◌*◌}
use allwinprotocol.Math.Common.{wad}

abbrev pub Pubkey : Type 0
Pubkey = ℕ

-- `Pubkey::default()`, the key of zeros
abbrev pub default_key : Pubkey
default_key = 0

abbrev pub Slot : Type 0
Slot = ℕ

abbrev pub initial_collateral_ratio : ℕ
initial_collateral_ratio = 1

abbrev pub initial_collateral_rate : ℕ
initial_collateral_rate = initial_collateral_ratio * wad

abbrev pub program_version : ℕ
program_version = 1

abbrev pub uninitialized_version : ℕ
uninitialized_version = 0

abbrev pub slots_per_year : ℕ
slots_per_year = 78_840_000
