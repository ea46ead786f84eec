-- ===== src/Client/Handlers.antt =====
-- What the handlers of a round do to the world, and how they end: the retries, the statuses of 400 and above
-- and the transport errors.
use walletd_go.Base.{
  ℕ, Bool, true, ◌&&◌, Option, none, some, ℤ, pos, ltb_ℤ, ◌<ℤ◌, ◌≤ℤ◌, ◌≡◌, refl, ◌⊎◌, inl, inr,
  Bool-cases, Option-cases, and_true, arith,
}
use walletd_go.Errors.Chain.{Err}
use walletd_go.Errors.Decode.{decode_problem}
use walletd_go.Errors.Result.{Result, ok, err}
use walletd_go.Http.Message.{Response}
use walletd_go.Client.Act.{Act}
use walletd_go.Client.World.{Env, drain_close}
use walletd_go.Client.Policy.{retryable, backoff}
use walletd_go.Client.RetryAfter.{parse_retry_after}
use walletd_go.Client.New.{Client}
use walletd_go.Client.Moved.{IsMoved}
use walletd_go.Client.Do.{
  Call, Round, continues, replay_safe, after_wait, wait_and_continue, retry_or, unless_over,
  on_transport_error, on_delay, on_error_status, transport_error,
}
use walletd_go.Client.Outcomes.{IsFailing, AllowsRetry, After}

-- A handler sends nothing, and its end is one of the above: with no body open, and with one.
module _ {S V : Type 0} (c : Client S) (call : Call V) where
  abbrev pub Ends : (ℕ → S → S → Type 0) → ℕ → Result Response → S → Round V × S → Type 0
  Ends Moved attempt outcome s res = Moved attempt s res.1 × After c call attempt outcome res.0

  abbrev pub Answers : (Response → ℕ → S → S → Type 0) → ℕ → Response → S → Round V × S → Type 0
  Answers Opened attempt resp s res =
      Opened resp attempt s res.1 × After c call attempt (ok resp) res.0

  abbrev pub Handles :
      (Response → ℕ → S → S → Type 0)
      → (ℕ → S → S → Type 0)
      → ℕ
      → Result Response
      → S
      → Round V × S
      → Type 0
  Handles Opened Moved attempt (err e) s res = Ends Moved attempt (err e) s res
  Handles Opened Moved attempt (ok resp) s res = Answers Opened attempt resp s res

module _ {S V : Type 0} (env : Env S) (c : Client S) (call : Call V)
    (Opened : Response → ℕ → S → S → Type 0) (Moved : ℕ → S → S → Type 0)
    (moves : IsMoved env c.retry Opened Moved) where
  pub drained :
      (attempt : ℕ) (resp : Response) (s : S) (res : Round V × S)
      → Ends c call Moved attempt (ok resp) (drain_close env resp s) res
      → Answers c call Opened attempt resp s res
  drained attempt resp s res (moved, after) = (moves.drains resp attempt s res.1 moved, after)

  pub closed :
      (attempt : ℕ) (resp : Response) (s : S) (res : Round V × S)
      → Ends c call Moved attempt (ok resp) (env.close resp s) res
      → Answers c call Opened attempt resp s res
  closed attempt resp s res (moved, after) = (moves.closes resp attempt s res.1 moved, after)

  after_wait-After :
      (attempt : ℕ) (outcome : Result Response) (e : Option Err)
      → After c call attempt outcome continues
      → After c call attempt outcome (after_wait env c call e)
  unfolding after_wait
  after_wait-After attempt outcome none h = h
  after_wait-After attempt outcome (some e) h = tt

  wait_and_continue-Ends :
      (attempt : ℕ) (outcome : Result Response) (d : ℤ) (s : S)
      → After c call attempt outcome continues
      → (d ≡ (backoff env c.retry attempt s).0) ⊎ (d ≤ℤ c.retry.max_delay)
      → Ends c call Moved attempt outcome s
          (wait_and_continue env c call d (backoff env c.retry attempt s).1)
  unfolding wait_and_continue
  wait_and_continue-Ends attempt outcome d s h bound =
      (moves.waits attempt s d h.0 bound, after_wait-After attempt outcome _ h)

  pub retry_or-Ends :
      (attempt : ℕ) (outcome : Result Response) (e : Err) (s : S)
      → (replay_safe call ≡ true → AllowsRetry call outcome)
      → Ends c call Moved attempt outcome s (retry_or env c call attempt e s)
  unfolding retry_or
  retry_or-Ends attempt outcome e s allowed =
      elim (Bool-cases (replay_safe call && ltb_ℤ (pos attempt) c.retry.max_attempts)) [
        | inr stop ↦ rw stop (moves.stays attempt s, tt)
        | inl again ↦
            let (safe, left) = and_true _ _ again in
            rw again (
              wait_and_continue-Ends attempt outcome (backoff env c.retry attempt s).0 s
                (ground arith, allowed safe) (inl refl))
      ]

  pub unless_over-Ends :
      (attempt : ℕ) (outcome : Result Response) (wrapped : Err → Err) (rest : Act (S) (Round V))
      (s : S)
      → Ends c call Moved attempt outcome s (rest s)
      → Ends c call Moved attempt outcome s (unless_over env c call wrapped rest s)
  unfolding unless_over
  unless_over-Ends attempt outcome wrapped rest s h = elim (Option-cases (env.ctx_err s)) [
    | inl alive ↦ rw (alive, unless_over) h
    | inr (e, over) ↦ rw (over, unless_over) (moves.stays attempt s, tt)
  ]

  -- Which statuses `retryable` accepts.
  retryable_sound :
      (status attempt : ℕ) (safe : Bool)
      → retryable c.retry status safe attempt ≡ true
      → (pos attempt <ℤ c.retry.max_attempts)
        × ((status ≡ 429) ⊎ ((safe ≡ true) × IsFailing status))
  unfolding retryable
  retryable_sound status attempt safe h = (ground arith, ground arith)

  retryable-After :
      (attempt : ℕ) (resp : Response)
      → retryable c.retry resp.status (replay_safe call) attempt ≡ true
      → After c call attempt (ok resp) continues
  retryable-After attempt resp again =
      let (left, why) = retryable_sound resp.status attempt (replay_safe call) again in
      (left, elim why [ inl limited ↦ inl limited | inr (safe, failing) ↦ inr (safe, inl failing) ])

  on_delay-Ends :
      (attempt : ℕ) (outcome : Result Response) (refusal : Err) (named : Option ℤ) (s : S)
      → After c call attempt outcome continues
      → Ends c call Moved attempt outcome s (
          on_delay env c call refusal
            (backoff env c.retry attempt s).0
            named
            (backoff env c.retry attempt s).1)
  unfolding on_delay
  on_delay-Ends attempt outcome refusal none s h =
      wait_and_continue-Ends attempt outcome _ s h (inl refl)
  on_delay-Ends attempt outcome refusal (some named) s h =
      elim (Bool-cases (ltb_ℤ c.retry.max_delay named)) [
        | inl long ↦ rw long (moves.backs_off attempt s, tt)
        | inr short ↦
            rw short (wait_and_continue-Ends attempt outcome named s h (inr (ground arith)))
      ]

  pub on_error_status-Ends :
      (attempt : ℕ) (resp : Response) (s : S)
      → Ends c call Moved attempt
          (ok resp)
          (drain_close env resp s)
          (on_error_status env c call attempt resp s)
  unfolding on_error_status
  on_error_status-Ends attempt resp s =
      elim (Bool-cases (retryable c.retry resp.status (replay_safe call) attempt)) [
        | inr final ↦ rw final (moves.stays attempt (drain_close env resp s), tt)
        | inl again ↦ rw again (
            on_delay-Ends attempt (ok resp) (Err.problem (decode_problem env.problem_json resp))
              (parse_retry_after env.parse_time (env.now s) resp.retry_after)
              (drain_close env resp s) (retryable-After attempt resp again))
      ]

  pub on_transport_error-Ends :
      (attempt : ℕ) (e : Err) (s : S)
      → Ends c call Moved attempt (err e) s (on_transport_error env c call attempt e s)
  unfolding on_transport_error
  on_transport_error-Ends attempt e s =
      unless_over-Ends attempt (err e) Err.wrap (retry_or env c call attempt (transport_error e)) s
        (retry_or-Ends attempt (err e) (transport_error e) s (λ safe. safe))
