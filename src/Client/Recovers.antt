-- ===== src/Client/Recovers.antt =====
-- A call outlasts a server that fails fewer times than there are attempts.
use walletd_go.Base.{
  ℕ, ◌+◌, true, Option, none, some, [], ltb, pos, ◌<ℤ◌, ◌≤ℤ◌, Bytes, ◌≡◌, ◌≢◌, ap, ◌∙◌, ◌⊎◌, inl,
  inr, Bool-cases, arith,
}
use walletd_go.Errors.Chain.{Err}
use walletd_go.Errors.Result.{Result, ok, err}
use walletd_go.Http.Message.{Response}
use walletd_go.Idempotency.{validate}
use walletd_go.Client.World.{Env}
use walletd_go.Client.New.{Client}
use walletd_go.Client.Flaky.{IsFlaky, round-failure, round-answer}
use walletd_go.Client.Invariant.{Ends, Keeps, send-Behind}
use walletd_go.Client.Entry.{body_of, do_call-sends}
use walletd_go.Client.Do.{returns, continues, Round, Call, replay_safe, round, do_call}

module _ {W V : Type 0} (env : Env W) (c : Client W) (call : Call V) (left : W → ℕ)
    (answer : Response) (v : V) (flaky : IsFlaky env c call left answer v) where
  -- The failures to come leave an attempt for the answer.
  abbrev HasAttempts : ℕ → W → Type 0
  HasAttempts attempt w = pos (attempt + left w) ≤ℤ c.retry.max_attempts

  abbrev IsAnswered : Result (Option V) → W → Type 0
  IsAnswered r w = r ≡ ok (some v)

  module _ (payload : Option Bytes) where
    returns-Ends :
        (attempt : ℕ) (res : Round V × W)
        → res.0 ≡ returns (ok (some v))
        → Ends env c call payload HasAttempts IsAnswered attempt res
    returns-Ends attempt (returns r, w) e = cc
    returns-Ends attempt (continues, w) e = absurd cc

    continues-Ends :
        (attempt : ℕ) (w : W) (res : Round V × W)
        → HasAttempts attempt w
        → res.0 ≡ continues
        → left res.1 + 1 ≡ left w
        → Ends env c call payload HasAttempts IsAnswered attempt res
    continues-Ends attempt w (returns r, w') enough e fewer = absurd cc
    continues-Ends attempt w (continues, w') enough e fewer = omega (arith, enough, fewer)

    round-Keeps : replay_safe call ≡ true → Keeps env c call payload HasAttempts IsAnswered
    round-Keeps safe attempt w enough = elim (Bool-cases (ltb 0 (left w))) [
      | inr last ↦
          returns-Ends attempt (round env c call payload attempt w)
            (round-answer env c call left answer v flaky payload attempt w (ground arith))
      | inl more ↦
          let (goes, fewer) =
            round-failure env c call left answer v flaky attempt safe (ground arith) payload w
              (ground arith) in
          continues-Ends attempt w (round env c call payload attempt w) enough goes fewer
    ]

-- A replay-safe call outlasts a server in trouble: if it fails fewer times than MaxAttempts, each time by no
-- answer, by a 500, 502, 503 or 504 that names no time to retry or by a 2xx whose body breaks off, and then
-- answers with a complete 2xx, the call returns the value of that answer. It has a body that encodes, if it
-- has one, and a key that Validate accepts, if it has one; the context is never over, and timers, random
-- numbers and the credential never fail.
pub do_call-recovers :
    {W V : Type 0} (env : Env W) (c : Client W) (call : Call V) (left : W → ℕ) (answer : Response)
    (v : V) (w : W)
    → IsFlaky env c call left answer v
    → ((e : Err) → call.input ≢ some (err e))
    → replay_safe call ≡ true
    → (call.idem ≡ []) ⊎ (validate call.idem ≡ none)
    → pos (left w) <ℤ c.retry.max_attempts
    → (do_call env c call w).0 ≡ ok (some v)
do_call-recovers env c call left answer v w flaky encodes safe valid enough =
    ap (λ r. r.0) (do_call-sends env c call w encodes valid)
    ∙ send-Behind env c call (body_of call.input) _ (IsAnswered env c call left answer v flaky) w
        (round-Keeps env c call left answer v flaky (body_of call.input) safe) (omega arith)
