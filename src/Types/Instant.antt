-- ===== src/Types/Instant.antt =====
-- The time of a model: nanoseconds since the year 1.
use walletd_go.Base.{ℤ}

abbrev pub Instant : Type 0
Instant = ℤ
