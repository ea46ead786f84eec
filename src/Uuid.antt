-- ===== src/Uuid.antt =====
-- `uuid.UUID` of github.com/google/uuid: sixteen bytes, as the number that they spell. How it prints
-- is that package's, and a parameter where it matters.
use walletd_go.Base.{ℕ}

abbrev pub Uuid : Type 0
Uuid = ℕ

-- `uuid.Nil`
abbrev pub nil_uuid : Uuid
nil_uuid = 0
