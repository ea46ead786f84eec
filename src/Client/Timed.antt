-- ===== src/Client/Timed.antt =====
-- A world with a clock around the client of client.go, and what its waits take.
use walletd_go.Base.{
  ℕ, ◌≤◌, ◌<◌, Option, none, some, List, [], ◌∷◌, ℤ, pos, leb_ℤ, ◌+ℤ◌, +ℤ-nonpos, ≤ℤ_refl, ≤ℤ_trans,
  ◌≤ℤ◌, ◌≡◌, refl, inl, inr, Bool-cases,
}
use walletd_go.Errors.Chain.{Err}
use walletd_go.Errors.Result.{Result, ok}
use walletd_go.Http.Message.{Request, Response}
use walletd_go.Client.World.{Env, token, drain_close}
use walletd_go.Client.Policy.{RetryPolicy, backoff, jitter, backoff_step, wait, wrap_wait}
use walletd_go.Client.RetryAfter.{parse_retry_after}
use walletd_go.Client.New.{Client}
use walletd_go.Client.Moved.{IsQuiet}

-- An exchange, with the times at which its request was sent and its answer was there.
pub record Timed : Type 0 where
  pub sent : ℤ
  pub outcome : Result Response
  pub answered : ℤ

-- The delay that parseRetryAfter reads off an error response.
abbrev pub Names : {W : Type 0} → Env W → Timed → ℤ → Type 0
Names env x d =
    (resp : Response) × (x.outcome ≡ ok resp)
    × (400 ≤ resp.status)
    × (resp.status < 600)
    × (parse_retry_after env.parse_time x.answered resp.retry_after ≡ some d)

-- Whether the delay that the last exchange named is over at a time.
abbrev pub IsDue : {W : Type 0} → Env W → List Timed → ℤ → Type 0
IsDue env [] t = Unit
IsDue env (x ∷ xs) t = (d : ℤ) → Names env x d → x.answered +ℤ d ≤ℤ t

-- Exchanges, the last one first, each of which was due when its request was sent.
abbrev pub IsSpaced : {W : Type 0} → Env W → List Timed → Type 0
IsSpaced env [] = Unit
IsSpaced env (x ∷ xs) = IsDue env xs x.sent × IsSpaced env xs

-- A world that keeps its exchanges with their times. Its clock does not go back, and a timer that fires
-- does so when its duration is over.
pub record IsTimed {W : Type 0} (env : Env W) (c : Client W) (log : W → List Timed) : Type 0 where
  pub quiet : IsQuiet env log
  pub authorized : (w : W) → log (token c.cred w).1 ≡ log w
  pub exchanged :
      (req : Request) (w : W)
      → let r = c.http.exchange c.http.check_redirect req w in
        log r.1 ≡ record { sent = env.now w; outcome = r.0; answered = env.now r.1 } ∷ log w
  pub slept :
      (d : ℤ) (w : W) → (env.sleep d w).0 ≡ none → env.now w +ℤ d ≤ℤ env.now (env.sleep d w).1
  pub drawn : (n : ℕ) (w : W) → env.now w ≤ℤ env.now (env.rand n w).1
  pub discarded : (n : ℕ) (resp : Response) (w : W) → env.now w ≤ℤ env.now (env.discard n resp w)
  pub closed : (resp : Response) (w : W) → env.now w ≤ℤ env.now (env.close resp w)
  pub granted : (w : W) → env.now w ≤ℤ env.now (token c.cred w).1

wrap_wait-none : (e : Option Err) → wrap_wait e ≡ none → e ≡ none
unfolding wrap_wait
wrap_wait-none none h = refl
wrap_wait-none (some e) h = absurd cc

module _ {W : Type 0} (env : Env W) (c : Client W) (log : W → List Timed)
    (timed : IsTimed env c log) where
  pub backoff-later :
      (policy : RetryPolicy) (attempt : ℕ) (w : W)
      → env.now w ≤ℤ env.now (backoff env policy attempt w).1
  unfolding backoff jitter
  backoff-later policy attempt w = elim (Bool-cases (leb_ℤ policy.base_delay (pos 0))) [
    | inl e ↦ rw e (≤ℤ_refl (env.now w))
    | inr e ↦ elim (Bool-cases (leb_ℤ (backoff_step policy attempt) (pos 0))) [
      | inl z ↦ rw (e, z) (≤ℤ_refl (env.now w))
      | inr z ↦ rw (e, z) (timed.drawn _ w)
    ]
  ]

  pub drain_close-later : (resp : Response) (w : W) → env.now w ≤ℤ env.now (drain_close env resp w)
  unfolding drain_close
  drain_close-later resp w =
      let read = env.discard 1_048_576 resp w in
      ≤ℤ_trans (env.now w) (env.now read) (env.now (env.close resp read))
        (timed.discarded 1_048_576 resp w) (timed.closed resp read)

  -- A wait that ends without an error has taken its duration.
  pub wait-later :
      (d : ℤ) (w : W) → (wait env d w).0 ≡ none → env.now w +ℤ d ≤ℤ env.now (wait env d w).1
  unfolding wait
  wait-later d w fired = elim (Bool-cases (leb_ℤ d (pos 0))) [
    | inl e ↦ rw e (+ℤ-nonpos (env.now w) (env.now w) d (≤ℤ_refl (env.now w)) e)
    | inr e ↦ rw e (timed.slept d w (wrap_wait-none (env.sleep d w).0 (rw e at fired)))
  ]
