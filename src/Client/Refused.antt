-- ===== src/Client/Refused.antt =====
-- A refusal is final: an error response about the request is returned at once, as its problem.
use walletd_go.Base.{
  ℕ, ◌≤◌, ◌<◌, true, false, ◌&&◌, Option, none, some, [], ltb, leb, Bytes, ◌≡◌, ◌≢◌, refl, ◌∙◌, ◌⊎◌,
  arith,
}
use walletd_go.Errors.Problem.{Problem}
use walletd_go.Errors.Chain.{Err, as_problem}
use walletd_go.Errors.Decode.{decode_problem}
use walletd_go.Errors.Envelope.{decode_problem_lem}
use walletd_go.Errors.Result.{Result, ok, err}
use walletd_go.Http.Message.{Response}
use walletd_go.Idempotency.{validate}
use walletd_go.Client.World.{Env, token, drain_close}
use walletd_go.Client.Policy.{retryable}
use walletd_go.Client.New.{Client}
use walletd_go.Client.Do.{
  Call, returns, replay_safe, target, request, on_error_status, on_response, on_exchange,
  with_token, round, turn, loop, finished, send, do_call,
}
use walletd_go.Client.Entry.{body_of, do_call-sends}

-- A status of 400 to 499, or of 501 or 505 to 599, but 429: those that are never sent again.
abbrev pub IsFinal : ℕ → Type 0
IsFinal status =
    (400 ≤ status)
    × (status < 600)
    × (status ≢ 429)
    × (status ≢ 500)
    × (status ≢ 502)
    × (status ≢ 503)
    × (status ≢ 504)

module _ {W V : Type 0} (env : Env W) (c : Client W) (call : Call V) (resp : Response)
    (final : IsFinal resp.status) where
  -- What the call returns.
  abbrev refusal : Result (Option V)
  refusal = err (Err.problem (decode_problem env.problem_json resp))

  on_response-final :
      (attempt : ℕ) (w : W)
      → on_response env c call attempt resp w ≡ (returns refusal, drain_close env resp w)
  unfolding on_response on_error_status retryable
  on_response-final attempt w =
      let (low, high, r429, r500, r502, r503, r504) = final in
      let refused : leb 400 resp.status && ltb resp.status 600 ≡ true = ground arith in
      let never : retryable c.retry resp.status (replay_safe call) attempt ≡ false = ground arith in
      rw (refused, never) refl

  module _ (payload : Option Bytes) (w w' : W) (t : Bytes)
      (requested : env.new_request_err (target env c call) ≡ none)
      (authorized : token c.cred w ≡ (ok t, w'))
      (answered : (c.http.exchange c.http.check_redirect (request env c call payload t) w').0
        ≡ ok resp) where
    -- The world behind the exchange and its body.
    abbrev behind : W
    behind =
        drain_close env resp
          (c.http.exchange c.http.check_redirect (request env c call payload t) w').1

    round-final : (attempt : ℕ) → round env c call payload attempt w ≡ (returns refusal, behind)
    unfolding round with_token on_exchange
    round-final attempt =
        rw (requested, round)
          (rw (authorized, with_token)
            (rw (answered, on_exchange)
              (on_response-final attempt
                (c.http.exchange c.http.check_redirect (request env c call payload t) w').1)))

    send-final : send env c call payload w ≡ (refusal, behind)
    unfolding send loop turn finished
    send-final = rw (round-final 1, turn) refl

-- A call that is answered with 400 to 599, but none of 429, 500, 502, 503 and 504, is over: whatever the
-- policy and the method, the world is the one behind that one exchange and the close of its body, so
-- nothing is waited for or sent again, and the error is the problem that the response decodes to. AsProblem finds that problem in it,
-- with the status on the wire. The call has a body that encodes and a key that Validate accepts, if any,
-- and the credential gives a token.
pub do_call-refused :
    {W V : Type 0} (env : Env W) (c : Client W) (call : Call V) (resp : Response) (w w' : W)
    (t : Bytes)
    → IsFinal resp.status
    → ((e : Err) → call.input ≢ some (err e))
    → (call.idem ≡ []) ⊎ (validate call.idem ≡ none)
    → env.new_request_err (target env c call) ≡ none
    → token c.cred w ≡ (ok t, w')
    → (c.http.exchange c.http.check_redirect (request env c call (body_of call.input) t) w').0
      ≡ ok resp
    → (e : Err) × (p : Problem) × (do_call env c call w ≡ (
      err e,
      drain_close env resp
          (c.http.exchange c.http.check_redirect (request env c call (body_of call.input) t) w').1,
    ))
      × (as_problem e ≡ some p)
      × (p ≡ decode_problem env.problem_json resp)
      × (p.status ≡ resp.status)
unfolding as_problem
do_call-refused env c call resp w w' t final encodes valid requested authorized answered = (
  Err.problem (decode_problem env.problem_json resp),
  decode_problem env.problem_json resp,
  do_call-sends env c call w encodes valid
      ∙ send-final env c call resp final (body_of call.input) w w' t requested authorized answered,
  refl,
  refl,
  (decode_problem_lem env.problem_json resp).0,
)
