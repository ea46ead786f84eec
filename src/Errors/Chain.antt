-- ===== src/Errors/Chain.antt =====
-- The error values of the client as trees, and `errors.Is` and `errors.As` over them. The text that
-- `fmt.Errorf` puts round an error is no part of the tree.
use walletd_go.Base.{ℕ, String, Bool, true, false, ◌||◌, Option, none, some, List, [], ◌∷◌}
use walletd_go.Errors.Sentinel.{Sentinel, same}
use walletd_go.Errors.Problem.{Problem, unwrap}

-- The sentinels of the standard library that the client meets: of `context` and of `io`.
pub data StdError : Type 0 where
  canceled deadline_exceeded eof unexpected_eof : StdError

pub data Err : Type 0 where
  -- a sentinel of the package, and one of the standard library
  sentinel : Sentinel → Err
  std : StdError → Err
  -- an error of another package, known by a number
  foreign : ℕ → Err
  -- `*Problem`
  problem : Problem → Err
  -- `fmt.Errorf` with no `%w`, with one and with two
  plain : Err
  wrap : Err → Err
  wrap2 : Err → Err → Err

unfoldable pub same_std : StdError → StdError → Bool
same_std StdError.canceled StdError.canceled = true
same_std StdError.deadline_exceeded StdError.deadline_exceeded = true
same_std StdError.eof StdError.eof = true
same_std StdError.unexpected_eof StdError.unexpected_eof = true
same_std _ _ = false

unfoldable pub contains : List Sentinel → Sentinel → Bool
contains [] target = false
contains (s ∷ out) target = same s target || contains out target

-- `errors.Is(err, target)` for a sentinel of the package
unfoldable pub is : Err → Sentinel → Bool
unfolding contains
is (sentinel s) target = same s target
is (std e) target = false
is (foreign n) target = false
is (problem p) target = contains (unwrap p) target
is plain target = false
is (wrap e) target = is e target
is (wrap2 e e') target = is e target || is e' target

-- `errors.Is(err, target)` for a sentinel of the standard library
unfoldable pub is_std : Err → StdError → Bool
unfolding same_std
is_std (std e) target = same_std e target
is_std (wrap e) target = is_std e target
is_std (wrap2 e e') target = is_std e target || is_std e' target
is_std _ target = false

-- AsProblem: `errors.As(err, &p)`, depth first
unfoldable pub as_problem : Err → Option Problem
as_problem (problem p) = some p
as_problem (wrap e) = as_problem e
as_problem (wrap2 e e') = elim (as_problem e) [ some p ↦ some p | none ↦ as_problem e' ]
as_problem _ = none

-- CodeOf
unfoldable pub code_of : Err → String
code_of e = elim (as_problem e) [ some p ↦ p.code | none ↦ "" ]
