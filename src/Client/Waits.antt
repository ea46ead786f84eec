-- ===== src/Client/Waits.antt =====
-- How long a call waits: the sleeps of do and doKeyed, over the whole loop.
use walletd_go.Base.{
  ℕ, ◌+◌, ◌-◌, ◌*◌, ◌≤◌, Option, ℤ, pos, leb_ℤ, pos_part, ◌<ℤ◌, ◌≤ℤ◌, Bytes, ◌≡◌, refl, ◌∙◌, ap,
  ◌⊎◌, inl, inr, Bool-cases, arith,
}
use native.Mathlib.Nat.{add-mul}
use walletd_go.Errors.Result.{Result}
use walletd_go.Http.Message.{Request, Response}
use walletd_go.Client.World.{Env, token, drain_close}
use walletd_go.Client.Policy.{backoff, wait}
use walletd_go.Client.New.{Client}
use walletd_go.Client.Do.{Call, Round, returns, continues, on_exchange, request, do_call}
use walletd_go.Client.Delays.{backoff-bounds}
use walletd_go.Client.Entry.{body_of}
use walletd_go.Client.Outcomes.{After}
use walletd_go.Client.Invariant.{Ends, IsInvariant, do_call-Behind}
use walletd_go.Client.Moved.{IsMoved, backoff-quiet}
use walletd_go.Client.Rounds.{on_exchange-Ends}

-- A world that counts the time slept: a timer adds at most its duration, since the context may end it
-- before, and nothing else adds to it. Random numbers are below their bound.
pub record CountsSleep {W : Type 0} (env : Env W) (c : Client W) (slept : W → ℕ) : Type 0 where
  pub sleep : (d : ℤ) (w : W) → slept (env.sleep d w).1 ≤ slept w + pos_part d
  pub rand : (n : ℕ) (w : W) → slept (env.rand n w).1 ≡ slept w
  pub in_range : (n : ℕ) (w : W) → (env.rand (n + 1) w).0 ≤ n
  pub unspent : (w : W) → slept (token c.cred w).1 ≡ slept w
  pub discard : (n : ℕ) (resp : Response) (w : W) → slept (env.discard n resp w) ≡ slept w
  pub close : (resp : Response) (w : W) → slept (env.close resp w) ≡ slept w
  pub exchanged :
      (req : Request) (w : W) → slept (c.http.exchange c.http.check_redirect req w).1 ≡ slept w

module _ {W V : Type 0} (env : Env W) (c : Client W) (call : Call V) (slept : W → ℕ)
    (counts : CountsSleep env c slept) where
  -- A round sleeps at most MaxDelay, and only if attempts are left.
  abbrev Waited : ℕ → W → W → Type 0
  Waited attempt w w' =
      (slept w' ≡ slept w)
      ⊎ ((pos attempt <ℤ c.retry.max_attempts) × (slept w' ≤ slept w + pos_part c.retry.max_delay))

  wait-slept : (d : ℤ) (w : W) → slept (wait env d w).1 ≤ slept w + pos_part d
  unfolding wait
  wait-slept d w = elim (Bool-cases (leb_ℤ d (pos 0))) [
    | inl e ↦ rw e (omega arith)
    | inr e ↦ rw e (counts.sleep d w)
  ]

  delay-bound :
      (attempt : ℕ) (w : W) (d : ℤ)
      → (d ≡ (backoff env c.retry attempt w).0) ⊎ (d ≤ℤ c.retry.max_delay)
      → pos_part d ≤ pos_part c.retry.max_delay
  delay-bound attempt w d (inl e) = rw e (backoff-bounds env c.retry attempt w counts.in_range).1
  delay-bound attempt w d (inr within) = ground arith

  Waited-same :
      (attempt : ℕ) (w v w' : W) → slept v ≡ slept w → Waited attempt v w' → Waited attempt w w'
  Waited-same attempt w v w' same waited = rw same at waited

  Waited-IsMoved : IsMoved env c.retry (λ resp. Waited) Waited
  unfolding drain_close
  Waited-IsMoved = record {
    stays = λ attempt w. inl refl;
    backs_off = λ attempt w. inl (backoff-quiet env slept counts.rand c.retry attempt w);
    waits = λ attempt w d left bound. inr (
      left,
      omega (
        arith,
        wait-slept d (backoff env c.retry attempt w).1,
        delay-bound attempt w d bound,
        backoff-quiet env slept counts.rand c.retry attempt w,
      ),
    );
    drains = λ resp attempt w w' waited.
        Waited-same attempt w (env.close resp (env.discard 1_048_576 resp w)) w'
          (counts.close resp (env.discard 1_048_576 resp w) ∙ counts.discard 1_048_576 resp w)
          waited;
    closes = λ resp attempt w w' waited.
        Waited-same attempt w (env.close resp w) w' (counts.close resp w) waited;
  }

  -- The waits that attempts are left for, at most MaxDelay each.
  abbrev left_to_wait : ℕ → ℕ
  left_to_wait attempt = (pos_part c.retry.max_attempts - attempt) * pos_part c.retry.max_delay

  one_less :
      (attempt : ℕ)
      → pos attempt <ℤ c.retry.max_attempts
      → left_to_wait attempt ≡ pos_part c.retry.max_delay + left_to_wait (attempt + 1)
  one_less attempt left =
      let fewer : pos_part c.retry.max_attempts - attempt
          ≡ 1 + (pos_part c.retry.max_attempts - (attempt + 1)) =
        ground arith in
      omega (
        arith,
        ap (λ k. k * pos_part c.retry.max_delay) fewer,
        add-mul 1 (pos_part c.retry.max_attempts - (attempt + 1)) (pos_part c.retry.max_delay),
      )

  -- One round more.
  Waited-le :
      (attempt : ℕ) (w w' : W) → Waited attempt w w' → slept w' ≤ slept w + left_to_wait attempt
  Waited-le attempt w w' (inl same) = omega (arith, same)
  Waited-le attempt w w' (inr (left, within)) = omega (arith, within, one_less attempt left)

  Waited-more :
      (attempt : ℕ) (w w' : W)
      → Waited attempt w w'
      → pos attempt <ℤ c.retry.max_attempts
      → slept w' + left_to_wait (attempt + 1) ≤ slept w + left_to_wait attempt
  Waited-more attempt w w' (inl same) left = omega (arith, same, one_less attempt left)
  Waited-more attempt w w' (inr (left', within)) left = omega (arith, within, one_less attempt left)

  module _ (most : ℕ) where
    -- The time slept and the time that is left to wait are within a bound.
    abbrev IsWithin : ℕ → W → Type 0
    IsWithin attempt w = slept w + left_to_wait attempt ≤ most

    abbrev HasSlept : Result (Option V) → W → Type 0
    HasSlept r w = slept w ≤ most

    Waited-Ends :
        (payload : Option Bytes) (attempt : ℕ) (outcome : Result Response) (w : W)
        (res : Round V × W)
        → IsWithin attempt w
        → Waited attempt w res.1
        → After c call attempt outcome res.0
        → Ends env c call payload IsWithin HasSlept attempt res
    Waited-Ends payload attempt outcome w (returns r, w') within waited after =
        omega (arith, within, Waited-le attempt w w' waited)
    Waited-Ends payload attempt outcome w (continues, w') within waited (left, allows) =
        omega (arith, within, Waited-more attempt w w' waited left)

    IsWithin-IsInvariant :
        (payload : Option Bytes) → IsInvariant env c call payload IsWithin HasSlept
    IsWithin-IsInvariant payload = record {
      fails = λ attempt e w within. omega (arith, within);
      authorized = λ attempt w within. omega (arith, counts.unspent w, within);
      exchanged = λ attempt t w within.
          let (outcome, w') =
            c.http.exchange c.http.check_redirect (request env c call payload t) w in
          let (waited, after) =
            on_exchange-Ends env c call Waited Waited-IsMoved attempt outcome w' in
          Waited-Ends payload attempt outcome w' (on_exchange env c call attempt outcome w')
            (omega (arith, counts.exchanged (request env c call payload t) w, within)) waited after;
    }

-- A call sleeps at most MaxDelay for each of its retries, (MaxAttempts - 1) * MaxDelay over all of its
-- loop, whatever the server asks for in Retry-After and whatever else happens: with the default policy
-- that is 15 seconds.
pub do_call-slept :
    {W V : Type 0} (env : Env W) (c : Client W) (call : Call V) (slept : W → ℕ) (w : W)
    → CountsSleep env c slept
    → slept (do_call env c call w).1
      ≤ slept w + (pos_part c.retry.max_attempts - 1) * pos_part c.retry.max_delay
do_call-slept env c call slept w counts =
    do_call-Behind env c call _ _
      (IsWithin-IsInvariant env c call slept counts
        (slept w + (pos_part c.retry.max_attempts - 1) * pos_part c.retry.max_delay)
        (body_of call.input))
      w (omega arith)
