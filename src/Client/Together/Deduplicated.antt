-- ===== src/Client/Together/Deduplicated.antt =====
-- Several calls under one key against a server that deduplicates by it: the operation is performed once.
use walletd_go.Base.{
  ℕ, ◌≤◌, false, Option, List, [], ◌∷◌, ◌++◌, All, All-append_right, Bytes, beq, ◌≡◌, sym, ap, ◌∙◌,
  inl, inr, Option-cases, arith, subst,
}
use walletd_go.Errors.Result.{Result, ok, err}
use walletd_go.Idempotency.{IdempotencyKey}
use walletd_go.Client.World.{Env, token}
use walletd_go.Client.New.{Client}
use walletd_go.Client.Do.{Call, Round, returns, continues, target, on_exchange}
use walletd_go.Client.Rounds.{on_exchange-quiet}
use walletd_go.Client.Once.{
  Deduplicates, Performed, RoundPerformed, Heard, exchange-Heard, explained,
}
use walletd_go.Client.Together.{
  Phase, ready, heard, done, Caller, after_round, exchanges, take_turn, Step, takes, Reaches, here,
  then,
}

-- What a phase says of the effects.
abbrev pub Knows : {V : Type 0} → Phase V → ℕ → Type 0
Knows (ready attempt) n = Unit
Knows (heard attempt outcome) n = Heard outcome n
Knows (done r) n = Performed r n

-- It stays true when another call performs the operation.
Knows-grows :
    {V : Type 0} (phase : Phase V) (n n' : ℕ) → n ≤ n' → n' ≤ 1 → Knows phase n → Knows phase n'
Knows-grows (ready attempt) n n' more most h = tt
Knows-grows (heard attempt (ok resp)) n n' more most h =
    λ low high. let performed = h low high in omega arith
Knows-grows (heard attempt (err e)) n n' more most h = tt
Knows-grows (done (ok v)) n n' more most h = omega arith
Knows-grows (done (err e)) n n' more most h = tt

after_round-Knows :
    {W V : Type 0} (env : Env W) (c : Client W) (attempt n : ℕ) (end : Round V)
    → RoundPerformed end n
    → Knows (after_round env c attempt end) n
unfolding after_round
after_round-Knows env c attempt n (returns r) h = h
after_round-Knows env c attempt n continues h = tt

module _ {W V : Type 0} (env : Env W) (c : Client W) (effects : W → ℕ) where
  -- At most one effect, no fewer than there were, and a phase that knows of it.
  abbrev Keeps : W → Phase V × W → Type 0
  Keeps w res = (effects w ≤ effects res.1) × (effects res.1 ≤ 1) × Knows res.0 (effects res.1)

  module _ (call : Call V) (contract : Deduplicates env c call.idem effects)
      (some_key : beq call.idem [] ≡ false) where
    exchanges-Keeps :
        (payload : Option Bytes) (attempt : ℕ) (t : Result Bytes) (w : W)
        → effects w ≤ 1
        → Keeps w (exchanges env c call payload attempt t w)
    unfolding exchanges
    exchanges-Keeps payload attempt (err e) w most = (omega arith, most, tt)
    exchanges-Keeps payload attempt (ok t) w most =
        exchange-Heard env c call effects contract some_key payload t w most

    take_turn-Keeps :
        (payload : Option Bytes) (phase : Phase V) (w : W)
        → effects w ≤ 1
        → Knows phase (effects w)
        → Keeps w (take_turn env c call payload phase w)
    unfolding take_turn
    take_turn-Keeps payload (ready attempt) w most knows =
        elim (Option-cases (env.new_request_err (target env c call))) [
          | inr (e, refused) ↦ rw (refused, take_turn) (omega arith, most, tt)
          | inl fine ↦
              let same = contract.unspent w in
              let (more, most', knows') =
                exchanges-Keeps payload attempt (token c.cred w).0 (token c.cred w).1
                  (omega (arith, same, most)) in
              rw (fine, take_turn) (omega (arith, same, more), most', knows')
        ]
    take_turn-Keeps payload (heard attempt outcome) w most knows =
        let (kept, after) = on_exchange-quiet env c call effects contract.quiet attempt outcome w in
        let (end, w') = on_exchange env c call attempt outcome w in
        (
          omega (arith, kept),
          omega (arith, kept, most),
          after_round-Knows env c attempt (effects w') end (
              subst (RoundPerformed _) (sym kept)
                (explained c call attempt (effects w) outcome _ most knows after)),
        )
    take_turn-Keeps payload (done r) w most knows = (omega arith, most, knows)

-- The calls at their start.
unfoldable pub starting : {V : Type 0} → List (Call V × Option Bytes) → List (Caller V)
starting [] = []
starting ((call, payload) ∷ calls) =
    record { call = call; payload = payload; phase = ready 1 } ∷ starting calls

abbrev pub IsUnder : {V : Type 0} → IdempotencyKey → Call V × Option Bytes → Type 0
IsUnder key x = x.0.idem ≡ key

-- A call that has returned without an error is performed.
abbrev pub IsPerformedIfDone : {V : Type 0} → ℕ → Caller V → Type 0
IsPerformedIfDone {V} n x = (v : Option V) → x.phase ≡ done (ok v) → n ≡ 1

module _ {W V : Type 0} (env : Env W) (c : Client W) (effects : W → ℕ) (key : IdempotencyKey)
    (contract : Deduplicates env c key effects) (some_key : beq key [] ≡ false) where
  -- The calls are under the key, and what they know is so.
  abbrev Agrees : ℕ → Caller V → Type 0
  Agrees n x = (x.call.idem ≡ key) × Knows x.phase n

  abbrev IsConsistent : List (Caller V) × W → Type 0
  IsConsistent s = (effects s.1 ≤ 1) × All (Agrees (effects s.1)) s.0

  Agrees-grow :
      (n n' : ℕ) (xs : List (Caller V)) → n ≤ n' → n' ≤ 1 → All (Agrees n) xs → All (Agrees n') xs
  Agrees-grow n n' [] more most h = tt
  Agrees-grow n n' (x ∷ xs) more most ((under, knows), h) =
      ((under, Knows-grows x.phase n n' more most knows), Agrees-grow n n' xs more most h)

  caller-Keeps :
      (x : Caller V) (w : W)
      → effects w ≤ 1
      → Agrees (effects w) x
      → Keeps env c effects w (take_turn env c x.call x.payload x.phase w)
  caller-Keeps x w most (under, knows) =
      take_turn-Keeps env c effects x.call
        (subst (λ k. Deduplicates env c k effects) (sym under) contract)
        (ap (λ k. beq k []) under ∙ some_key) x.payload x.phase w most knows

  -- The step of one call among the others.
  step-Agrees :
      (earlier later : List (Caller V)) (x : Caller V) (n n' : ℕ) (phase : Phase V)
      → n ≤ n'
      → n' ≤ 1
      → Knows phase n'
      → All (Agrees n) (earlier ++ (x ∷ later))
      → All (Agrees n') (earlier ++ (record x { phase = phase } ∷ later))
  step-Agrees [] later x n n' phase more most knows ((under, before), h) =
      ((under, knows), Agrees-grow n n' later more most h)
  step-Agrees (y ∷ earlier) later x n n' phase more most knows ((under, before), h) = (
    (under, Knows-grows y.phase n n' more most before),
    step-Agrees earlier later x n n' phase more most knows h,
  )

  Step-IsConsistent : {s t : List (Caller V) × W} → Step env c s t → IsConsistent s → IsConsistent t
  Step-IsConsistent (takes earlier later x w) (most, all) =
      let (more, most', knows) =
        caller-Keeps x w most (All-append_right _ earlier (x ∷ later) all).0 in
      (most', step-Agrees earlier later x (effects w) _ _ more most' knows all)

  Reaches-IsConsistent :
      {s t : List (Caller V) × W} → Reaches env c s t → IsConsistent s → IsConsistent t
  Reaches-IsConsistent here h = h
  Reaches-IsConsistent (then r st) h = Step-IsConsistent st (Reaches-IsConsistent r h)

  -- The calls behind whose success the operation is performed.
  successes_performed :
      (n : ℕ) (xs : List (Caller V)) → All (Agrees n) xs → All (IsPerformedIfDone n) xs
  successes_performed n [] h = tt
  successes_performed n (x ∷ xs) ((under, knows), h) =
      (λ v e. subst (λ p. Knows p n) e knows, successes_performed n xs h)

  starting-Agrees :
      (n : ℕ) (calls : List (Call V × Option Bytes))
      → All (IsUnder key) calls
      → All (Agrees n) (starting calls)
  unfolding starting
  starting-Agrees n [] h = tt
  starting-Agrees n (x ∷ xs) (under, h) = ((under, tt), starting-Agrees n xs h)

-- Any number of calls under one key, with any bodies, in goroutines that share the client, against a
-- server that deduplicates by the key: however their exchanges, waits and retries interleave, the
-- operation is performed at most once in all, and it is performed exactly once as soon as one of the calls
-- has returned without an error.
pub together_deduplicated :
    {W V : Type 0} (env : Env W) (c : Client W) (effects : W → ℕ) (key : IdempotencyKey)
    (calls : List (Call V × Option Bytes)) (w : W) (s : List (Caller V) × W)
    → Deduplicates env c key effects
    → beq key [] ≡ false
    → effects w ≡ 0
    → All (IsUnder key) calls
    → Reaches env c (starting calls, w) s
    → (effects s.1 ≤ 1) × All (IsPerformedIfDone (effects s.1)) s.0
together_deduplicated env c effects key calls w s contract some_key fresh under reached =
    let (most, all) =
      Reaches-IsConsistent env c effects key contract some_key reached (
        omega arith,
        starting-Agrees env c effects key contract some_key (effects w) calls under,
      ) in
    (most, successes_performed env c effects key contract some_key (effects s.1) s.0 all)
