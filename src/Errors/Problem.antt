-- ===== src/Errors/Problem.antt =====
-- The problem of types.gen.go, and what errors.go says of it: its message, its status class and the
-- sentinels that it unwraps to.
use walletd_go.Base.{
  ℕ, String, Bool, true, not, Option, none, some, List, [], ◌∷◌, ◌++◌, leb, ◌==◌, if◌then◌else◌,
  str_eq, eq_iff, arith, ◌≢◌,
}
use walletd_go.Errors.Sentinel.{Sentinel, same}
use walletd_go.Errors.Code.{lookup, code_sentinels}

pub record Problem : Type 0 where
  pub code : String
  pub detail : Option String
  pub status : ℕ
  pub title : String
  pub type : Option String

-- `&Problem{}`
abbrev pub empty_problem : Problem
empty_problem = record { code = ""; detail = none; status = 0; title = ""; type = none }

message_of : Option String → String → String
message_of none title = title
message_of (some detail) title = if not (str_eq detail "") then detail else title

-- (p *Problem) Message
unfoldable pub message : Problem → String
unfolding message_of
message p = message_of p.detail p.title

message_of-ne-empty : (d : Option String) (t : String) → t ≢ "" → message_of d t ≢ ""
unfolding message_of
message_of-ne-empty none t h = h
message_of-ne-empty (some d) t h = ground (arith, eq_iff d "")

pub message-ne-empty : (p : Problem) → p.title ≢ "" → message p ≢ ""
unfolding message
message-ne-empty p h = message_of-ne-empty p.detail p.title h

-- statusSentinel
unfoldable pub status_sentinel : ℕ → Option Sentinel
status_sentinel status =
    if status == 400
    then some Sentinel.bad_request
    else if status == 401
    then some Sentinel.unauthorized
    else if status == 403
    then some Sentinel.forbidden
    else if status == 404
    then some Sentinel.not_found
    else if status == 409
    then some Sentinel.conflict
    else if status == 422
    then some Sentinel.unprocessable
    else if status == 429
    then some Sentinel.rate_limited
    else if leb 500 status
    then some Sentinel.server
    else none

-- The test `len(out) == 0 || out[0] != class`.
unfoldable pub is_new : List Sentinel → Sentinel → Bool
is_new [] class = true
is_new (first ∷ _) class = not (same first class)

-- What `Unwrap` appends for the code.
unfoldable pub by_code : Option Sentinel → List Sentinel
by_code none = []
by_code (some sentinel) = sentinel ∷ []

-- What `Unwrap` appends for the status class, behind what is there.
unfoldable pub by_class : Option Sentinel → List Sentinel → List Sentinel
by_class none out = out
by_class (some class) out = if is_new out class then out ++ class ∷ [] else out

-- (p *Problem) Unwrap
unfoldable pub unwrap : Problem → List Sentinel
unfolding by_code by_class is_new
unwrap p = by_class (status_sentinel p.status) (by_code (lookup p.code code_sentinels))
