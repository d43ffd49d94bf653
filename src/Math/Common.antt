-- ===== src/Math/Common.antt =====
-- The scales of the fixed-point numbers (src/math/common.rs).
use allwinprotocol.Base.{ℕ}

abbrev pub scale : ℕ
scale = 18

abbrev pub wad : ℕ
wad = 1_000_000_000_000_000_000

abbrev pub half_wad : ℕ
half_wad = 500_000_000_000_000_000

abbrev pub percent_scaler : ℕ
percent_scaler = 10_000_000_000_000_000
