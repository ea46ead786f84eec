-- ===== src/Client/Flaky.antt =====
-- A server that fails for a while, and what a round makes of its failures and of its answer.
use walletd_go.Base.{
  ℕ, ◌+◌, ◌≤◌, ◌<◌, true, false, ◌&&◌, ◌||◌, Option, none, some, [], ltb, leb, ℤ, pos, ◌<ℤ◌, leb_ℤ,
  ltb_ℤ, Bytes, ◌≡◌, refl, ◌∙◌, ◌⊎◌, inl, inr, Bool-cases, arith,
}
use walletd_go.Errors.Chain.{Err}
use walletd_go.Errors.Result.{Result, ok, err}
use walletd_go.Http.Message.{Request, Response}
use walletd_go.Client.World.{Env, token, drain_close}
use walletd_go.Client.Policy.{retryable, backoff, backoff_step, jitter, wait, wrap_wait}
use walletd_go.Client.RetryAfter.{parse_retry_after}
use walletd_go.Client.New.{Client}
use walletd_go.Client.Do.{
  Call, Round, returns, continues, replay_safe, after_wait, wait_and_continue, retry_or,
  unless_over, target, request, on_transport_error, on_delay, on_error_status, on_broken_body,
  on_success, on_body, on_decoded, on_response, on_exchange, with_token, round, transport_error,
}

-- The failures of a server in trouble: no answer, a 500, 502, 503 or 504 that names no time to retry, and
-- a 2xx whose body breaks off.
abbrev pub IsTrouble : Result Response → Type 0
IsTrouble (err e) = Unit
IsTrouble (ok resp) =
    (((resp.status ≡ 500) ⊎ (resp.status ≡ 502) ⊎ (resp.status ≡ 503) ⊎ (resp.status ≡ 504))
      × (resp.retry_after ≡ []))
    ⊎ ((e : Err) × (200 ≤ resp.status) × (resp.status < 300) × (resp.body_error ≡ some e))

-- A world in which a call fails for a while: `left` counts the failures to come.
pub record IsFlaky {W V : Type 0} (env : Env W) (c : Client W) (call : Call V) (left : W → ℕ)
    (answer : Response) (v : V) : Type 0 where
  -- The context is never over, and timers, random numbers, bodies and the credential cause no failure.
  pub alive : (w : W) → env.ctx_err w ≡ none
  pub sleeps : (d : ℤ) (w : W) → ((env.sleep d w).0 ≡ none) × (left (env.sleep d w).1 ≡ left w)
  pub random : (n : ℕ) (w : W) → left (env.rand n w).1 ≡ left w
  pub drained : (n : ℕ) (resp : Response) (w : W) → left (env.discard n resp w) ≡ left w
  pub closed : (resp : Response) (w : W) → left (env.close resp w) ≡ left w
  pub authorized :
      (w : W) → (t : Bytes) × ((token c.cred w).0 ≡ ok t) × (left (token c.cred w).1 ≡ left w)
  pub requested : env.new_request_err (target env c call) ≡ none
  -- An exchange fails while failures are left, and each one takes one away.
  pub fails :
      (req : Request) (w : W)
      → 0 < left w
      → IsTrouble (c.http.exchange c.http.check_redirect req w).0
        × (left (c.http.exchange c.http.check_redirect req w).1 + 1 ≡ left w)
  -- Then a request of the call is answered, with a complete 2xx.
  pub answers :
      (payload : Option Bytes) (t : Bytes) (w : W)
      → left w ≡ 0
      → (c.http.exchange c.http.check_redirect (request env c call payload t) w).0 ≡ ok answer
  pub low : 200 ≤ answer.status
  pub high : answer.status < 300
  pub whole : answer.body_error ≡ none
  pub decodes :
      (decode : Bytes → Result V) × (call.output ≡ some decode) × (decode answer.body ≡ ok v)

module _ {W V : Type 0} (env : Env W) (c : Client W) (call : Call V) (left : W → ℕ)
    (answer : Response) (v : V) (flaky : IsFlaky env c call left answer v) where
  -- A round that goes on, and causes no failure.
  abbrev GoesOn : Round V × W → W → Type 0
  GoesOn res w = (res.0 ≡ continues) × (left res.1 ≡ left w)

  wait-continues : (d : ℤ) (w : W) → GoesOn (wait_and_continue env c call d w) w
  unfolding wait_and_continue wait after_wait wrap_wait
  wait-continues d w = elim (Bool-cases (leb_ℤ d (pos 0))) [
    | inl e ↦ rw (e, flaky.alive w) (refl, refl)
    | inr e ↦ rw (e, (flaky.sleeps d w).0) (refl, (flaky.sleeps d w).1)
  ]

  backoff-left : (attempt : ℕ) (w : W) → left (backoff env c.retry attempt w).1 ≡ left w
  unfolding backoff jitter
  backoff-left attempt w = elim (Bool-cases (leb_ℤ c.retry.base_delay (pos 0))) [
    | inl e ↦ rw e refl
    | inr e ↦ elim (Bool-cases (leb_ℤ (backoff_step c.retry attempt) (pos 0))) [
      | inl z ↦ rw (e, z) refl
      | inr z ↦ rw (e, z) (flaky.random _ w)
    ]
  ]

  drain_close-left : (resp : Response) (w : W) → left (drain_close env resp w) ≡ left w
  unfolding drain_close
  drain_close-left resp w = flaky.closed resp _ ∙ flaky.drained _ resp w

  module _ (attempt : ℕ) (safe : replay_safe call ≡ true)
      (more : pos attempt <ℤ c.retry.max_attempts) where
    retry_or-GoesOn : (e : Err) (w : W) → GoesOn (retry_or env c call attempt e w) w
    unfolding retry_or
    retry_or-GoesOn e w =
        let delay = backoff env c.retry attempt w in
        let (goes, kept) = wait-continues delay.0 delay.1 in
        let again : ltb_ℤ (pos attempt) c.retry.max_attempts ≡ true = ground arith in
        rw (safe, again) (goes, kept ∙ backoff-left attempt w)

    unless_over-GoesOn :
        (wrapped : Err → Err) (e : Err) (w : W)
        → GoesOn (unless_over env c call wrapped (retry_or env c call attempt e) w) w
    unfolding unless_over
    unless_over-GoesOn wrapped e w = rw (flaky.alive w, unless_over) (retry_or-GoesOn e w)

    on_error_status-GoesOn :
        (resp : Response) (w : W)
        → (resp.status ≡ 500) ⊎ (resp.status ≡ 502) ⊎ (resp.status ≡ 503) ⊎ (resp.status ≡ 504)
        → resp.retry_after ≡ []
        → GoesOn (on_error_status env c call attempt resp w) w
    unfolding on_error_status on_delay
    on_error_status-GoesOn resp w status unnamed =
        let w' = drain_close env resp w in
        let delay = backoff env c.retry attempt w' in
        let (goes, kept) = wait-continues delay.0 delay.1 in
        rw (retryable-failure, no_time)
          (goes, kept ∙ backoff-left attempt w' ∙ drain_close-left resp w)
      where
        retryable-failure : retryable c.retry resp.status (replay_safe call) attempt ≡ true
        retryable-failure = unfold retryable in ground arith

        no_time : parse_retry_after env.parse_time (env.now w) resp.retry_after ≡ none
        no_time = unfold parse_retry_after in rw unnamed refl

    on_body-GoesOn :
        (decode : Bytes → Result V) (body : Bytes) (broken : Option Err) (e : Err) (w : W)
        → broken ≡ some e
        → GoesOn (on_body env c call attempt decode body broken w) w
    unfolding on_body on_broken_body
    on_body-GoesOn decode body none e w breaks = absurd cc
    on_body-GoesOn decode body (some x) e w breaks =
        unless_over-GoesOn (λ x. x) (transport_error x) w

    on_success-GoesOn :
        (output : Option (Bytes → Result V)) (decode : Bytes → Result V) (resp : Response) (e : Err)
        (w : W)
        → output ≡ some decode
        → resp.body_error ≡ some e
        → GoesOn (on_success env c call attempt output resp w) w
    unfolding on_success
    on_success-GoesOn none decode resp e w decodes broken = absurd cc
    on_success-GoesOn (some d) decode resp e w decodes broken =
        let (goes, kept) = on_body-GoesOn d resp.body resp.body_error e (env.close resp w) broken in
        (goes, kept ∙ flaky.closed resp w)

    on_response-GoesOn :
        (resp : Response) (w : W)
        → IsTrouble (ok resp)
        → GoesOn (on_response env c call attempt resp w) w
    unfolding on_response
    on_response-GoesOn resp w (inl (status, unnamed)) =
        let refused : leb 400 resp.status && ltb resp.status 600 ≡ true = ground arith in
        rw refused (on_error_status-GoesOn resp w status unnamed)
    on_response-GoesOn resp w (inr (e, low, high, broken)) =
        let (decode, output, decoded) = flaky.decodes in
        let not_refused : leb 400 resp.status && ltb resp.status 600 ≡ false = ground arith in
        let expected : ltb resp.status 200 || leb 300 resp.status ≡ false = ground arith in
        rw (not_refused, expected) (on_success-GoesOn call.output decode resp e w output broken)

    -- A failure is followed by another attempt.
    on_exchange-GoesOn :
        (outcome : Result Response) (w : W)
        → IsTrouble outcome
        → GoesOn (on_exchange env c call attempt outcome w) w
    unfolding on_exchange on_transport_error
    on_exchange-GoesOn (ok resp) w trouble = on_response-GoesOn resp w trouble
    on_exchange-GoesOn (err e) w trouble = unless_over-GoesOn Err.wrap (transport_error e) w

    pub round-failure :
        (payload : Option Bytes) (w : W)
        → 0 < left w
        → ((round env c call payload attempt w).0 ≡ continues)
          × (left (round env c call payload attempt w).1 + 1 ≡ left w)
    unfolding round with_token
    round-failure payload w some_left =
        let (t, authorized, same) = flaky.authorized w in
        let (trouble, fewer) =
          flaky.fails (request env c call payload t) (token c.cred w).1 (omega (arith, same)) in
        let (goes, kept) =
          on_exchange-GoesOn
            (c.http.exchange c.http.check_redirect (request env c call payload t)
              (token c.cred w).1).0
            (c.http.exchange c.http.check_redirect (request env c call payload t)
              (token c.cred w).1).1
            trouble in
        rw (flaky.requested, round)
          (rw (authorized, with_token) (goes, omega (arith, kept, fewer, same)))

  on_response-answer :
      (attempt : ℕ) (w : W) → (on_response env c call attempt answer w).0 ≡ returns (ok (some v))
  unfolding on_response on_success on_body on_decoded
  on_response-answer attempt w =
      let low = flaky.low in
      let high = flaky.high in
      let (decode, output, decoded) = flaky.decodes in
      let not_refused : leb 400 answer.status && ltb answer.status 600 ≡ false = ground arith in
      let expected : ltb answer.status 200 || leb 300 answer.status ≡ false = ground arith in
      rw (not_refused, expected, output, flaky.whole, decoded) refl

  -- The answer is returned.
  pub round-answer :
      (payload : Option Bytes) (attempt : ℕ) (w : W)
      → left w ≡ 0
      → (round env c call payload attempt w).0 ≡ returns (ok (some v))
  unfolding round with_token on_exchange
  round-answer payload attempt w none_left =
      let (t, authorized, same) = flaky.authorized w in
      let w' = (token c.cred w).1 in
      rw (flaky.requested, round)
        (rw (authorized, with_token)
          (rw (flaky.answers payload t w' (same ∙ none_left), on_exchange)
            (on_response-answer attempt
              (c.http.exchange c.http.check_redirect (request env c call payload t) w').1)))
