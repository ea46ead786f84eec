-- ===== src/Errors/Result.antt =====
-- A Go result `(value, error)`: the value is read only where the error is nil.
use walletd_go.Errors.Chain.{Err}

pub data Result {ℓ} (A : Type ℓ) : Type ℓ where
  ok : A → Result A
  err : Err → Result A
