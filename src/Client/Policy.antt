-- ===== src/Client/Policy.antt =====
-- The retry policy of client.go: what is retried, and after which delay.
use walletd_go.Base.{
  ℕ, ◌+◌, ◌-◌, ◌*◌, ◌/◌, ◌^◌, Bool, true, false, ◌||◌, Option, none, some, ◌==◌, if◌then◌else◌, ℤ,
  pos, ltb_ℤ, leb_ℤ, pos_part, wrap64,
}
use walletd_go.Errors.Chain.{Err}
use walletd_go.Client.Act.{Act, return, ◌>>=◌}
use walletd_go.Client.World.{Env}

pub record RetryPolicy : Type 0 where
  pub max_attempts : ℤ
  -- durations in nanoseconds
  pub base_delay : ℤ
  pub max_delay : ℤ

-- DefaultRetryPolicy
abbrev pub default_retry_policy : RetryPolicy
default_retry_policy = record {
  max_attempts = pos 4;
  base_delay = pos 200_000_000;
  max_delay = pos 5_000_000_000;
}

-- (c *Client) retryable
unfoldable pub retryable : RetryPolicy → ℕ → Bool → ℕ → Bool
retryable policy status replay_safe attempt =
    if leb_ℤ policy.max_attempts (pos attempt)
    then false
    else if status == 429
    then true
    else if status == 500 || status == 502 || status == 503 || status == 504
    then replay_safe
    else false

-- `base << (attempt - 1)` on an int64, for a positive base.
unfoldable pub shifted : ℕ → ℕ → ℤ
shifted base attempt = wrap64 (pos (base * 2 ^ (attempt - 1)))

-- The step of the backoff before its jitter: the shifted base delay, or the cap.
unfoldable pub backoff_step : RetryPolicy → ℕ → ℤ
unfolding shifted
backoff_step policy attempt =
    let d = shifted (pos_part policy.base_delay) attempt in
    if ltb_ℤ policy.max_delay d || leb_ℤ d (pos 0) then policy.max_delay else d

-- Half of a positive step, and a random part of the other half.
unfoldable pub jitter : {W : Type 0} → Env W → ℕ → Act W ℤ
jitter env d = do let half = d / 2; r ← env.rand (half + 1); return (pos (half + r))

-- (c *Client) backoff
unfoldable pub backoff : {W : Type 0} → Env W → RetryPolicy → ℕ → Act W ℤ
unfolding backoff_step jitter
backoff env policy attempt =
    if leb_ℤ policy.base_delay (pos 0)
    then return (pos 0)
    else (let d = backoff_step policy attempt in
        if leb_ℤ d (pos 0) then return (pos 0) else jitter env (pos_part d))

-- The error of an interrupted wait is wrapped.
unfoldable pub wrap_wait : Option Err → Option Err
wrap_wait none = none
wrap_wait (some e) = some (Err.wrap e)

-- (c *Client) wait; `none` is a nil error.
unfoldable pub wait : {W : Type 0} → Env W → ℤ → Act W (Option Err)
unfolding wrap_wait
wait env d w =
    if leb_ℤ d (pos 0) then (env.ctx_err w, w) else (wrap_wait (env.sleep d w).0, (env.sleep d w).1)
