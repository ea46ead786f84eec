-- ===== src/Client/Patience.antt =====
-- The Retry-After header in the loop of client.go: no request goes out before the time that the last answer
-- named.
use walletd_go.Base.{
  ℕ, ◌≤◌, ◌<◌, Option, none, some, List, [], ◌∷◌, ℤ, leb, ltb, ltb_ℤ, true, ◌+ℤ◌, +ℤ-≤ℤ, ≤ℤ_trans,
  ◌≤ℤ◌, ◌≡◌, refl, ◌∙◌, inl, inr, Bool-cases, ◌&&◌, arith,
}
use walletd_go.Errors.Chain.{Err}
use walletd_go.Errors.Decode.{decode_problem}
use walletd_go.Errors.Result.{Result, ok}
use walletd_go.Http.Message.{Response}
use walletd_go.Client.World.{Env, token, drain_close}
use walletd_go.Client.Policy.{backoff, wait, retryable}
use walletd_go.Client.RetryAfter.{parse_retry_after}
use walletd_go.Client.New.{Client}
use walletd_go.Client.Do.{
  Call, Round, returns, continues, request, replay_safe, after_wait, wait_and_continue, on_delay,
  on_error_status, on_response, on_exchange, do_call, do_keyed,
}
use walletd_go.Client.Entry.{body_of}
use walletd_go.Client.Rounds.{on_exchange-quiet}
use walletd_go.Client.Invariant.{IsInvariant, Ends, do_call-Behind, do_keyed-Behind}
use walletd_go.Client.Timed.{
  Timed, IsDue, IsSpaced, IsTimed, backoff-later, drain_close-later, wait-later,
}

module _ {W V : Type 0} (env : Env W) (c : Client W) (call : Call V) (log : W → List Timed)
    (timed : IsTimed env c log) where
  after_wait-none : (e : Option Err) → after_wait env c call e ≡ continues → e ≡ none
  unfolding after_wait
  after_wait-none none h = refl
  after_wait-none (some e) h = absurd cc

  -- A handler that goes on has taken at least `d` since `t`.
  abbrev Takes : ℤ → ℤ → Round V × W → Type 0
  Takes t d res = res.0 ≡ continues → t +ℤ d ≤ℤ env.now res.1

  wait_and_continue-Takes :
      (t d : ℤ) (w : W) → t ≤ℤ env.now w → Takes t d (wait_and_continue env c call d w)
  unfolding wait_and_continue
  wait_and_continue-Takes t d w begun again =
      +ℤ-≤ℤ t (env.now w) d (env.now (wait env d w).1) begun
        (wait-later env c log timed d w (after_wait-none (wait env d w).0 again))

  on_delay-Takes :
      (refusal : Err) (t delay d : ℤ) (w : W)
      → t ≤ℤ env.now w
      → Takes t d (on_delay env c call refusal delay (some d) w)
  unfolding on_delay
  on_delay-Takes refusal t delay d w begun = elim (Bool-cases (ltb_ℤ c.retry.max_delay d)) [
    | inl long ↦ rw long (λ again. absurd cc)
    | inr short ↦ rw short (wait_and_continue-Takes t d w begun)
  ]

  on_error_status-Takes :
      (attempt : ℕ) (resp : Response) (d : ℤ) (w : W)
      → parse_retry_after env.parse_time (env.now w) resp.retry_after ≡ some d
      → Takes (env.now w) d (on_error_status env c call attempt resp w)
  unfolding on_error_status
  on_error_status-Takes attempt resp d w named =
      elim (Bool-cases (retryable c.retry resp.status (replay_safe call) attempt)) [
        | inr final ↦ rw final (λ again. absurd cc)
        | inl again ↦
            let drained = drain_close env resp w in
            let drawn = backoff env c.retry attempt drained in
            rw (again, named)
              (on_delay-Takes (Err.problem (decode_problem env.problem_json resp)) (env.now w)
                drawn.0 d drawn.1
                (≤ℤ_trans (env.now w) (env.now drained) (env.now drawn.1)
                  (drain_close-later env c log timed resp w)
                  (backoff-later env c log timed c.retry attempt drained)))
      ]

  on_response-Takes :
      (attempt : ℕ) (resp : Response) (d : ℤ) (w : W)
      → 400 ≤ resp.status
      → resp.status < 600
      → parse_retry_after env.parse_time (env.now w) resp.retry_after ≡ some d
      → Takes (env.now w) d (on_response env c call attempt resp w)
  unfolding on_response
  on_response-Takes attempt resp d w low high named =
      let refused : (leb 400 resp.status && ltb resp.status 600) ≡ true = ground arith in
      rw refused (on_error_status-Takes attempt resp d w named)

  on_exchange-Takes :
      (attempt : ℕ) (outcome : Result Response) (resp : Response) (d : ℤ) (w : W)
      → outcome ≡ ok resp
      → 400 ≤ resp.status
      → resp.status < 600
      → parse_retry_after env.parse_time (env.now w) resp.retry_after ≡ some d
      → Takes (env.now w) d (on_exchange env c call attempt outcome w)
  unfolding on_exchange
  on_exchange-Takes attempt outcome resp d w answered low high named =
      rw answered (on_response-Takes attempt resp d w low high named)

  abbrev IsKept : W → Type 0
  IsKept w = IsSpaced env (log w)

  -- The exchanges so far were due, and so is the next one.
  abbrev IsCalm : W → Type 0
  IsCalm w = IsKept w × IsDue env (log w) (env.now w)

  abbrev RoundEnds : ℕ → Round V × W → Type 0
  RoundEnds = Ends env c call (body_of call.input) (λ attempt. IsCalm) (λ r. IsKept)

  exchange-RoundEnds :
      (attempt : ℕ) (xs : List Timed) (res : Round V × W)
      → log res.1 ≡ xs
      → IsSpaced env xs
      → (res.0 ≡ continues → IsDue env xs (env.now res.1))
      → RoundEnds attempt res
  exchange-RoundEnds attempt xs (returns r, w) kept spaced due = rw kept spaced
  exchange-RoundEnds attempt xs (continues, w) kept spaced due =
      (rw kept spaced, rw kept (due refl))

  later-IsDue : (xs : List Timed) (t t' : ℤ) → t ≤ℤ t' → IsDue env xs t → IsDue env xs t'
  later-IsDue [] t t' later due = tt
  later-IsDue (x ∷ xs) t t' later due =
      λ d names. ≤ℤ_trans (x.answered +ℤ d) t t' (due d names) later

  IsCalm-IsInvariant : IsInvariant env c call (body_of call.input) (λ attempt. IsCalm) (λ r. IsKept)
  IsCalm-IsInvariant = record {
    fails = λ attempt e w calm. calm.0;
    authorized = λ attempt w calm.
        let same = timed.authorized w in
        (
          rw same calm.0,
          rw same (
              later-IsDue (log w) (env.now w) (env.now (token c.cred w).1) (timed.granted w)
                calm.1),
        );
    exchanged = λ attempt t w calm.
        let req = request env c call (body_of call.input) t in
        let r = c.http.exchange c.http.check_redirect req w in
        let x : Timed = record { sent = env.now w; outcome = r.0; answered = env.now r.1 } in
        exchange-RoundEnds attempt (x ∷ log w) (on_exchange env c call attempt r.0 r.1)
          ((on_exchange-quiet env c call log timed.quiet attempt r.0 r.1).0 ∙ timed.exchanged req w)
          (calm.1, calm.0)
          (λ again d names.
            let (resp, answered, low, high, named) = names in
            on_exchange-Takes attempt r.0 resp d r.1 answered low high named again);
  }

-- No request of a call goes out too early: if an answer of 400 to 599 names a delay, as parseRetryAfter
-- reads it, and the call sends another request, then at least that delay lies between that answer and that
-- request, whatever the server, the network, the random numbers and the credential do. The world keeps the
-- exchanges, none before the call, with their times; its clock does not go back while the client draws,
-- reads, closes or asks for a token, and a timer that fires does so when its duration is over.
pub do_call-IsSpaced :
    {W V : Type 0} (env : Env W) (c : Client W) (call : Call V) (log : W → List Timed) (w : W)
    → IsTimed env c log
    → log w ≡ []
    → IsSpaced env (log (do_call env c call w).1) × IsSpaced env (log (do_keyed env c call w).1)
do_call-IsSpaced env c call log w timed start =
    let invariant = IsCalm-IsInvariant env c call log timed in
    let calm : IsCalm env c call log timed w = (rw start tt, rw start tt) in
    (
      do_call-Behind env c call _ _ invariant w calm,
      do_keyed-Behind env c call _ _ invariant w calm,
    )
