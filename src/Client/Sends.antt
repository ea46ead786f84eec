-- ===== src/Client/Sends.antt =====
-- What a whole call sends, from its arguments: do and doKeyed of client.go in a world that keeps the
-- exchanges.
use walletd_go.Base.{
  ℕ, ◌+◌, ◌-◌, ◌≤◌, max, Bool, false, Option, none, some, List, [], ◌∷◌, ◌++◌, append-nil, length,
  All, pos_part, Bytes, ◌≡◌, refl, sym, ap, ◌∙◌, ◌⊎◌, inl, inr, Option-cases, arith, subst,
  if◌then◌else◌,
}
use walletd_go.Errors.Chain.{Err}
use walletd_go.Errors.Result.{Result, ok, err}
use walletd_go.Http.Message.{Response}
use walletd_go.Idempotency.{validate}
use walletd_go.Client.World.{Env}
use walletd_go.Client.New.{Client}
use walletd_go.Client.Do.{Call, replay_safe, do_call, do_keyed}
use walletd_go.Client.Recording.{Exchange, Recorded, recording_env, recording}
use walletd_go.Client.Entry.{body_of, do_call-cases}
use walletd_go.Client.Outcomes.{AllowsRetry, Explains}
use walletd_go.Client.Trace.{IsFailure, IsOfCall, Attempts, send-Run}

-- The exchanges of a list whose outcome has a property.
unfoldable pub count : (Result Response → Bool) → List Exchange → ℕ
count p [] = 0
count p (x ∷ xs) = if p x.outcome then 1 + count p xs else count p xs

module _ {W V : Type 0} (world : Env W) (client : Client W) (call : Call V) where
  -- A call and what it sent: the exchanges that it adds to the record, and its result, are a run.
  abbrev pub Sends : List Exchange → Result (Option V) × Recorded W → List Exchange → Type 0
  Sends before res sent =
      (res.1.1 ≡ before ++ sent) × Attempts world client call (body_of call.input) 1 res.0 sent

  pub do_call-Sends :
      (s : Recorded W)
      → (sent : List Exchange) × Sends s.1
          (do_call (recording_env world) (recording client) call s)
          sent
  do_call-Sends s = elim (do_call-cases (recording_env world) (recording client) call s) [
    | inl same ↦
        let (sent, logged, runs) = send-Run world client call (body_of call.input) s in
        rw same (sent, (logged, runs))
    | inr (e, refused) ↦ rw refused ([], (sym (append-nil s.1), (e, refl)))
  ]

count_one : (performed : Result Response → Bool) (x : Exchange) → count performed (x ∷ []) ≤ 1
unfolding count
count_one performed x = ground arith

-- A call that is not replay-safe goes on only after a 429.
unperformed :
    {V : Type 0} (call : Call V) (outcome : Result Response) (performed : Result Response → Bool)
    → replay_safe call ≡ false
    → ((resp : Response) → resp.status ≡ 429 → performed (ok resp) ≡ false)
    → AllowsRetry call outcome
    → performed outcome ≡ false
unperformed call (err e) performed unsafe limited allows = absurd cc
unperformed call (ok resp) performed unsafe limited (inl e) = limited resp e
unperformed call (ok resp) performed unsafe limited (inr (safe, h)) = absurd cc

-- What a run's exchanges have in common, from any attempt on.
module _ {W V : Type 0} (world : Env W) (client : Client W) (call : Call V)
    (payload : Option Bytes) where
  pub Attempts-length :
      (attempt : ℕ) (r : Result (Option V)) (sent : List Exchange)
      → Attempts world client call payload attempt r sent
      → length sent ≤ max 1 (pos_part client.retry.max_attempts + 1 - attempt)
  Attempts-length attempt r [] h = omega arith
  Attempts-length attempt r (x ∷ xs) (its, inl (e, why)) = rw e (omega arith)
  Attempts-length attempt r (x ∷ xs) (its, inr (left, allows, runs)) =
      let rest = Attempts-length (attempt + 1) r xs runs in ground arith

  pub Attempts-All :
      (attempt : ℕ) (r : Result (Option V)) (sent : List Exchange)
      → Attempts world client call payload attempt r sent
      → All (IsOfCall world client call payload) sent
  Attempts-All attempt r [] h = tt
  Attempts-All attempt r (x ∷ xs) (its, inl (e, why)) = (its, rw e tt)
  Attempts-All attempt r (x ∷ xs) (its, inr (left, allows, runs)) =
      (its, Attempts-All (attempt + 1) r xs runs)

  pub Attempts-performed :
      (attempt : ℕ) (r : Result (Option V)) (sent : List Exchange)
      (performed : Result Response → Bool)
      → replay_safe call ≡ false
      → ((resp : Response) → resp.status ≡ 429 → performed (ok resp) ≡ false)
      → Attempts world client call payload attempt r sent
      → count performed sent ≤ 1
  unfolding count
  Attempts-performed attempt r [] performed unsafe limited h = omega arith
  Attempts-performed attempt r (x ∷ xs) performed unsafe limited (its, inl (e, why)) =
      rw e (count_one performed x)
  Attempts-performed attempt r (x ∷ xs) performed unsafe limited (its, inr (left, allows, runs)) =
      let rest = Attempts-performed (attempt + 1) r xs performed unsafe limited runs in
      rw (unperformed call x.outcome performed unsafe limited allows) rest

  -- The shape of a run that sent something: all before the last exchange allowed another attempt, and
  -- the last one explains the result.
  abbrev pub IsShape : Result (Option V) → List Exchange → Type 0
  IsShape r sent =
      (earlier : List Exchange) × (x : Exchange) × (sent ≡ earlier ++ x ∷ [])
      × All (λ y. AllowsRetry call y.outcome) earlier
      × Explains call x.outcome r

  pub Attempts-IsShape :
      (attempt : ℕ) (r : Result (Option V)) (sent : List Exchange)
      → Attempts world client call payload attempt r sent
      → IsFailure r ⊎ IsShape r sent
  Attempts-IsShape attempt r [] h = inl h
  Attempts-IsShape attempt r (x ∷ xs) (its, inl (e, why)) = inr ([], x, ap (λ l. x ∷ l) e, tt, why)
  Attempts-IsShape attempt r (x ∷ xs) (its, inr (left, allows, runs)) =
      elim (Attempts-IsShape (attempt + 1) r xs runs) [
        | inl failed ↦ inl failed
        | inr (earlier, y, e, safe, why) ↦
            inr (x ∷ earlier, y, ap (λ l. x ∷ l) e, (allows, safe), why)
      ]

module _ {W V : Type 0} (world : Env W) (client : Client W) (call : Call V) where
  -- A call sends at most MaxAttempts requests, and one if MaxAttempts is not positive; each is the
  -- request of the call, with the same method, target, body and idempotency key, whatever its token.
  pub do_call-sent :
      (s : Recorded W)
      → (sent : List Exchange) × ((do_call (recording_env world) (recording client) call s).1.1
          ≡ s.1 ++ sent)
        × (length sent ≤ max 1 (pos_part client.retry.max_attempts))
        × All (IsOfCall world client call (body_of call.input)) sent
  do_call-sent s =
      let (sent, (logged, runs)) = do_call-Sends world client call s in
      (
        sent,
        logged,
        (let bound = Attempts-length world client call (body_of call.input) 1 _ sent runs in
            omega arith),
        Attempts-All world client call (body_of call.input) 1 _ sent runs,
      )

  -- A call that returns without an error has sent something, and returns what the last answer says: the
  -- value that a complete 2xx body decodes to, or nothing if nothing was to be decoded. Every exchange
  -- before it was a 429, or the call was replay-safe and the exchange had no answer, was a 500, 502, 503 or
  -- 504, or was a 2xx whose body broke off: one that could not be read to its end, or on which the decoder
  -- reports that it ended. So a 2xx that decodes, or that the decoder refuses for another reason, is never
  -- asked for again.
  pub do_call-explained :
      (s : Recorded W) (v : Option V)
      → (do_call (recording_env world) (recording client) call s).0 ≡ ok v
      → (earlier : List Exchange) × (x : Exchange) × ((do_call
            (recording_env world)
            (recording client)
            call
            s).1.1
          ≡ s.1 ++ (earlier ++ x ∷ []))
        × All (λ y. AllowsRetry call y.outcome) earlier
        × Explains call x.outcome (ok v)
  do_call-explained s v e =
      let (sent, (logged, runs)) = do_call-Sends world client call s in
      elim (Attempts-IsShape world client call (body_of call.input) 1 _ sent runs) [
        | inl (x, failed) ↦ absurd cc
        | inr (earlier, x, shape, allows, why) ↦ (
          earlier,
          x,
          logged ∙ ap (λ l. s.1 ++ l) shape,
          allows,
          subst (λ r. Explains call x.outcome r) e why,
        )
      ]

  -- A call that is not replay-safe, which is a POST without an idempotency key, is performed at most
  -- once, whichever outcomes it is performed in, if a 429 tells that it was not.
  pub do_call-performed_once :
      (s : Recorded W) (performed : Result Response → Bool)
      → replay_safe call ≡ false
      → ((resp : Response) → resp.status ≡ 429 → performed (ok resp) ≡ false)
      → (sent : List Exchange) × ((do_call (recording_env world) (recording client) call s).1.1
          ≡ s.1 ++ sent)
        × (count performed sent ≤ 1)
  do_call-performed_once s performed unsafe limited =
      let (sent, (logged, runs)) = do_call-Sends world client call s in
      (
        sent,
        logged,
        Attempts-performed world client call (body_of call.input) 1 _ sent performed unsafe limited
            runs,
      )

  -- doKeyed with a key that Validate refuses sends nothing and changes nothing: it fails with the error
  -- of Validate. With any other key it is do.
  pub do_keyed-validate :
      (s : Recorded W)
      → ((e : Err) × (validate call.idem ≡ some e)
          × (do_keyed (recording_env world) (recording client) call s ≡ (err e, s)))
        ⊎ ((validate call.idem ≡ none)
            × (do_keyed (recording_env world) (recording client) call s
                ≡ do_call (recording_env world) (recording client) call s))
  unfolding do_keyed
  do_keyed-validate s = elim (Option-cases (validate call.idem)) [
    | inl valid ↦ inr (valid, rw (valid, do_keyed) refl)
    | inr (e, invalid) ↦ inl (e, invalid, rw (invalid, do_keyed) refl)
  ]
