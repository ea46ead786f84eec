-- ===== src/Client/Once.antt =====
-- A keyed call against a server that deduplicates by the key: the operation is performed at most once,
-- however often the request is sent, and exactly once if the call succeeds.
use walletd_go.Base.{
  ℕ, ◌≤◌, ◌<◌, false, Option, none, some, [], Bytes, beq, ◌≡◌, refl, sym, ap, ◌⊎◌, inl, inr,
  Option-cases, arith, subst, if◌then◌else◌,
}
use walletd_go.Errors.Result.{Result, ok, err}
use walletd_go.Http.Message.{Request, Response}
use walletd_go.Idempotency.{IdempotencyKey, validate, validate-nonempty}
use walletd_go.Client.World.{Env, token}
use walletd_go.Client.New.{Client}
use walletd_go.Client.Do.{Call, Round, returns, continues, on_exchange, request, do_keyed}
use walletd_go.Client.Entry.{body_of}
use walletd_go.Client.Invariant.{Ends, IsInvariant, do_keyed-Behind}
use walletd_go.Client.Moved.{IsQuiet}
use walletd_go.Client.Outcomes.{After}
use walletd_go.Client.Rounds.{on_exchange-quiet}

-- A world whose server deduplicates one operation by its key; `effects` counts how often the operation
-- was performed.
pub record Deduplicates {W : Type 0} (env : Env W) (c : Client W) (key : IdempotencyKey)
    (effects : W → ℕ) : Type 0 where
  -- Timers, random numbers and the credential perform nothing.
  pub quiet : IsQuiet env effects
  pub unspent : (w : W) → effects (token c.cred w).1 ≡ effects w
  -- A request under the key performs the operation if it was not yet performed, or does not, whatever the
  -- client hears of it.
  pub exchanged :
      (req : Request) (w : W)
      → req.idempotency_key ≡ some key
      → let w' = (c.http.exchange c.http.check_redirect req w).1 in
        (effects w' ≡ effects w) ⊎ ((effects w ≡ 0) × (effects w' ≡ 1))
  -- A 2xx answer to one says that the operation is performed.
  pub answered :
      (req : Request) (w : W) (resp : Response)
      → req.idempotency_key ≡ some key
      → (c.http.exchange c.http.check_redirect req w).0 ≡ ok resp
      → 200 ≤ resp.status
      → resp.status < 300
      → 0 < effects (c.http.exchange c.http.check_redirect req w).1

-- What a result says of the effects.
abbrev pub Performed : {V : Type 0} → Result (Option V) → ℕ → Type 0
Performed (ok v) n = n ≡ 1
Performed (err e) n = Unit

abbrev pub RoundPerformed : {V : Type 0} → Round V → ℕ → Type 0
RoundPerformed (returns r) n = Performed r n
RoundPerformed continues n = Unit

-- What an answer says of the effects.
abbrev pub Heard : Result Response → ℕ → Type 0
Heard (ok resp) n = 200 ≤ resp.status → resp.status < 300 → 0 < n
Heard (err e) n = Unit

-- What a success was heard of is performed.
success_performed :
    (outcome : Result Response) (resp : Response) (n : ℕ)
    → outcome ≡ ok resp
    → 200 ≤ resp.status
    → resp.status < 300
    → n ≤ 1
    → Heard outcome n
    → n ≡ 1
success_performed outcome resp n answer low high most heard =
    let performed : 0 < n = (subst (λ r. Heard r n) answer heard) low high in
    omega (arith, performed)

-- How a round ends says of the effects what its answer does.
pub explained :
    {W V : Type 0} (c : Client W) (call : Call V) (attempt n : ℕ) (outcome : Result Response)
    (end : Round V)
    → n ≤ 1
    → Heard outcome n
    → After c call attempt outcome end
    → RoundPerformed end n
explained c call attempt n outcome (returns (ok none)) most heard
      (resp, answer, low, high, nothing) =
    success_performed outcome resp n answer low high most heard
explained c call attempt n outcome (returns (ok (some v))) most heard
      (resp, decode, answer, low, high, whole, decodes, value) =
    success_performed outcome resp n answer low high most heard
explained c call attempt n outcome (returns (err e)) most heard why = tt
explained c call attempt n outcome continues most heard why = tt

-- An outcome that is an answer is heard as one.
Heard-outcome :
    (outcome : Result Response) (n : ℕ)
    → ((resp : Response) → outcome ≡ ok resp → 200 ≤ resp.status → resp.status < 300 → 0 < n)
    → Heard outcome n
Heard-outcome (ok resp) n h = h resp refl
Heard-outcome (err e) n h = tt

module _ {W V : Type 0} (env : Env W) (c : Client W) (call : Call V) (effects : W → ℕ)
    (contract : Deduplicates env c call.idem effects) (some_key : beq call.idem [] ≡ false) where
  -- At most once, and once behind a success.
  abbrev IsOnce : Round V × W → Type 0
  IsOnce res = (effects res.1 ≤ 1) × RoundPerformed res.0 (effects res.1)

  abbrev AtMostOnce : ℕ → W → Type 0
  AtMostOnce attempt w = effects w ≤ 1

  abbrev Once : Result (Option V) → W → Type 0
  Once r w = (effects w ≤ 1) × Performed r (effects w)

  request-key :
      (payload : Option Bytes) (t : Bytes)
      → (request env c call payload t).idempotency_key ≡ some call.idem
  unfolding request
  request-key payload t = ap (λ b. if b then none else some call.idem) some_key

  -- What a request under the key leaves: no fewer effects, at most one, and what its outcome says.
  pub exchange-Heard :
      (payload : Option Bytes) (t : Bytes) (w : W)
      → effects w ≤ 1
      → let r = c.http.exchange c.http.check_redirect (request env c call payload t) w in
        (effects w ≤ effects r.1) × (effects r.1 ≤ 1) × Heard r.0 (effects r.1)
  exchange-Heard payload t w most =
      let heard =
        Heard-outcome (c.http.exchange c.http.check_redirect (request env c call payload t) w).0
          (effects (c.http.exchange c.http.check_redirect (request env c call payload t) w).1)
          λ resp. contract.answered (request env c call payload t) w resp (request-key payload t) in
      elim (contract.exchanged (request env c call payload t) w (request-key payload t)) [
        | inl same ↦ (omega (arith, same), omega (arith, same), heard)
        | inr (before, now) ↦ (omega (arith, before), omega (arith, now), heard)
      ]

  IsOnce-Ends :
      (payload : Option Bytes) (attempt : ℕ) (res : Round V × W)
      → IsOnce res
      → Ends env c call payload AtMostOnce Once attempt res
  IsOnce-Ends payload attempt (returns r, w) once = once
  IsOnce-Ends payload attempt (continues, w) once = once.0

  pub Once-IsInvariant : (payload : Option Bytes) → IsInvariant env c call payload AtMostOnce Once
  Once-IsInvariant payload = record {
    fails = λ attempt e w most. (most, tt);
    authorized = λ attempt w most. omega (arith, contract.unspent w, most);
    exchanged = λ attempt t w most.
        let (outcome, w') =
          c.http.exchange c.http.check_redirect (request env c call payload t) w in
        let (kept, after) =
          on_exchange-quiet env c call effects contract.quiet attempt outcome w' in
        let (more, most', heard) = exchange-Heard payload t w most in
        IsOnce-Ends payload attempt (on_exchange env c call attempt outcome w') (
          omega (arith, kept, most'),
          subst (RoundPerformed _) (sym kept)
              (explained c call attempt (effects w') outcome _ most' heard after),
        );
  }

-- doKeyed against a server that deduplicates by the idempotency key, from a state in which the operation
-- is not yet performed: it is performed at most once, however often the request is sent and whichever
-- answers are lost or broken off, and exactly once if doKeyed returns without an error.
pub do_keyed-deduplicated :
    {W V : Type 0} (env : Env W) (c : Client W) (call : Call V) (effects : W → ℕ) (w : W)
    → Deduplicates env c call.idem effects
    → effects w ≡ 0
    → (effects (do_keyed env c call w).1 ≤ 1)
      × Performed (do_keyed env c call w).0 (effects (do_keyed env c call w).1)
unfolding do_keyed
do_keyed-deduplicated env c call effects w contract fresh =
    elim (Option-cases (validate call.idem)) [
      | inr (e, invalid) ↦ rw (invalid, do_keyed) (omega arith, tt)
      | inl valid ↦
          do_keyed-Behind env c call _ _
            (Once-IsInvariant env c call effects contract (validate-nonempty call.idem valid)
              (body_of call.input))
            w (omega arith)
    ]
