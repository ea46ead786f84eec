-- ===== src/Client/Delays.antt =====
-- How long a retry waits: the bounds of `backoff`, and what `parseRetryAfter` makes of the seconds form.
use walletd_go.Base.{
  ℕ, ◌+◌, ◌-◌, ◌*◌, ◌/◌, ◌^◌, min, ◌≤◌, leb, Option, some, [], ◌∷◌, ℤ, pos, leb_ℤ, ◌≤ℤ◌, ◌<ℤ◌,
  pos_part, neg_part, wrap64, wrap64-eq_of_IsInt64, Bytes, ◌≡◌, refl, sym, ap, ◌∙◌, inl, inr,
  Bool-cases, arith,
}
use walletd_go.Text.Decimal.{parse_int}
use walletd_go.Text.Space.{trim_space}
use walletd_go.Client.World.{Env}
use walletd_go.Client.Policy.{RetryPolicy, backoff, backoff_step, shifted, jitter, wait}
use walletd_go.Client.Shifts.{range, step_early, step_late}
use walletd_go.Client.RetryAfter.{parse_retry_after, by_form, from_seconds, second}

-- A step that is positive is within the cap.
backoff_step-capped :
    (policy : RetryPolicy) (attempt : ℕ)
    → pos_part (backoff_step policy attempt) ≤ pos_part policy.max_delay
unfolding backoff_step
backoff_step-capped policy attempt = ground arith

jitter-bounds :
    {W : Type 0} (env : Env W) (w : W) (d : ℕ)
    → ((n : ℕ) (v : W) → (env.rand (n + 1) v).0 ≤ n)
    → (d / 2 ≤ pos_part (jitter env d w).0)
      × (pos_part (jitter env d w).0 ≤ d)
      × (neg_part (jitter env d w).0 ≡ 0)
unfolding jitter
jitter-bounds env w d in_range =
    let r : (env.rand (d / 2 + 1) w).0 ≤ d / 2 = in_range (d / 2) w in
    (omega arith, omega arith, refl)

-- The delay of `backoff` is never negative and never over the cap of MaxDelay, if `rand.Int64N` answers
-- below its argument; it is 0 if BaseDelay or the step is not positive, and at least half of the step
-- otherwise.
pub backoff-bounds :
    {W : Type 0} (env : Env W) (policy : RetryPolicy) (attempt : ℕ) (w : W)
    → ((n : ℕ) (v : W) → (env.rand (n + 1) v).0 ≤ n)
    → (neg_part (backoff env policy attempt w).0 ≡ 0)
      × (pos_part (backoff env policy attempt w).0 ≤ pos_part policy.max_delay)
      × (policy.base_delay ≤ℤ pos 0 → (backoff env policy attempt w).0 ≡ pos 0)
      × (pos 0 <ℤ policy.base_delay
          → pos_part (backoff_step policy attempt) / 2 ≤ pos_part (backoff env policy attempt w).0)
unfolding backoff
backoff-bounds env policy attempt w in_range =
    let capped = backoff_step-capped policy attempt in
    let (half, whole, positive) =
      jitter-bounds env w (pos_part (backoff_step policy attempt)) in_range in
    elim (Bool-cases (leb_ℤ policy.base_delay (pos 0))) [
      | inl e ↦ rw (e, backoff) (refl, omega arith, λ h. refl, λ h. ground arith)
      | inr e ↦ elim (Bool-cases (leb_ℤ (backoff_step policy attempt) (pos 0))) [
        | inl z ↦ rw (e, z, backoff) (refl, omega arith, λ h. refl, λ h. ground arith)
        | inr z ↦
            rw (e, z, backoff)
              (positive, omega (arith, whole, capped), λ h. absurd (ground arith), λ h. half)
      ]
    ]

-- The step of the backoff is the base delay doubled once for each attempt so far, up to the cap of
-- MaxDelay, however many attempts there were: the shift overflows an int64 only where the cap takes its
-- place. The base delay is positive and below 2^30 nanoseconds and the cap positive and below 2^34, as
-- those of the default policy are.
pub backoff_step_lem :
    (policy : RetryPolicy) (attempt : ℕ)
    → pos 0 <ℤ policy.base_delay
    → policy.base_delay <ℤ pos (2 ^ 30)
    → pos 0 <ℤ policy.max_delay
    → policy.max_delay <ℤ pos (2 ^ 34)
    → backoff_step policy attempt
      ≡ pos (min (pos_part policy.base_delay * 2 ^ (attempt - 1)) (pos_part policy.max_delay))
unfolding backoff_step shifted
backoff_step_lem policy attempt base base_small above cap_small =
    let (b_low, b_high, b_eq) = range policy.base_delay (2 ^ 30) base base_small in
    let (c_low, c_high, c_eq) = range policy.max_delay (2 ^ 34) above cap_small in
    rw c_eq (elim (Bool-cases (leb (attempt - 1) 33)) [
      | inl early ↦
          step_early (pos_part policy.base_delay) (attempt - 1) (pos_part policy.max_delay) b_low
            b_high c_low (ground arith)
      | inr late ↦
          let split : attempt - 1 ≡ 34 + (attempt - 35) = ground arith in
          rw split (
            step_late (pos_part policy.base_delay) (attempt - 35) (pos_part policy.max_delay) b_low
              c_high)
    ])

-- The two shapes of the seconds form.
by_form_seconds :
    (parse_time : Bytes → Option ℤ) (now : ℤ) (v : Bytes) (secs : ℕ)
    → parse_int (trim_space v) ≡ some (pos secs)
    → parse_retry_after parse_time now v ≡ some (wrap64 (pos (secs * second)))
unfolding parse_retry_after by_form from_seconds
by_form_seconds parse_time now [] secs h = absurd (unread (sym h))
  where
    unread : some (pos secs) ≡ parse_int (trim_space []) → ⊥
    unread e = unfold parse_int trim_space in cc
by_form_seconds parse_time now (c ∷ v) secs h = rw (h, by_form) refl

negative_product :
    (secs : ℕ)
    → 9_223_372_037 ≤ secs
    → secs ≤ 18_446_744_073
    → wrap64 (pos (secs * second)) <ℤ pos 0
unfolding wrap64
negative_product secs low high = ground arith

wait_negative :
    {W : Type 0} (env : Env W) (w : W) (d : ℤ) → d <ℤ pos 0 → wait env d w ≡ (env.ctx_err w, w)
unfolding wait
wait_negative env w d h = elim (Bool-cases (leb_ℤ d (pos 0))) [
  | inl e ↦ rw e refl
  | inr e ↦ absurd (ground arith)
]

-- The seconds form of Retry-After, which `Atoi` reads behind spaces: up to 9223372036 seconds, which is
-- 292 years, the delay is exact; from there to 18446744073 seconds the product is past an int64 and the
-- delay is negative, so that the wait behind it does not wait: it answers `ctx.Err()` at once.
pub parse_retry_after_seconds :
    {W : Type 0} (env : Env W) (w : W) (v : Bytes) (secs : ℕ)
    → parse_int (trim_space v) ≡ some (pos secs)
    → (secs ≤ 9_223_372_036
        → parse_retry_after env.parse_time (env.now w) v ≡ some (pos (secs * second)))
      × (9_223_372_037 ≤ secs
          → secs ≤ 18_446_744_073
          → (d : ℤ) × (parse_retry_after env.parse_time (env.now w) v ≡ some d)
            × (d <ℤ pos 0)
            × (wait env d w ≡ (env.ctx_err w, w)))
parse_retry_after_seconds env w v secs h =
    let read = by_form_seconds env.parse_time (env.now w) v secs h in
    (
      λ short. read ∙ ap some (wrap64-eq_of_IsInt64 (pos (secs * second)) (omega arith)),
      λ long short. (
        wrap64 (pos (secs * second)),
        read,
        negative_product secs long short,
        wait_negative env w (wrap64 (pos (secs * second))) (negative_product secs long short),
      ),
    )
