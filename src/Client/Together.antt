-- ===== src/Client/Together.antt =====
-- Several calls at a time under one key, as goroutines that share the client: their steps interleave in
-- any order.
pub mod Deduplicated
pub mod Alone
use walletd_go.Base.{
  ℕ, zero, suc, ◌+◌, ◌≤◌, ◌<◌, Bool, false, Option, none, some, List, [], ◌∷◌, ◌++◌, All,
  All-append_right, ℤ, pos, Bytes, beq, ◌≡◌, refl, sym, ap, ◌∙◌, ◌⊎◌, inl, inr, Option-cases, arith,
  subst,
}
use walletd_go.Errors.Chain.{Err}
use walletd_go.Errors.Result.{Result, ok, err}
use walletd_go.Http.Message.{Request, Response}
use walletd_go.Idempotency.{IdempotencyKey}
use walletd_go.Client.World.{Env, token}
use walletd_go.Client.New.{Client}
use walletd_go.Client.Do.{
  Call, Round, returns, continues, target, request, with_token, on_exchange, round,
}
use walletd_go.Client.Moved.{IsQuiet}
use walletd_go.Client.Rounds.{on_exchange-quiet}
use walletd_go.Client.Once.{
  Deduplicates, Performed, RoundPerformed, Heard, exchange-Heard, explained,
}

-- Where a call stands: before an attempt, behind an exchange, or returned.
pub data Phase (V : Type 0) : Type 0 where
  ready : ℕ → Phase V
  heard : ℕ → Result Response → Phase V
  done : Result (Option V) → Phase V

-- A goroutine in the loop of do: its call, the body that it sends, and where it stands.
pub record Caller (V : Type 0) : Type 0 where
  pub call : Call V
  pub payload : Option Bytes
  pub phase : Phase V

module _ {W V : Type 0} (env : Env W) (c : Client W) where
  -- Where the end of a round leads.
  unfoldable pub after_round : ℕ → Round V → Phase V
  after_round attempt (returns r) = done r
  after_round attempt continues = ready (attempt + 1)

  -- The part of a round up to the exchange, behind the token.
  unfoldable pub exchanges : Call V → Option Bytes → ℕ → Result Bytes → W → Phase V × W
  exchanges call payload attempt (err e) w = (done (err (Err.wrap e)), w)
  exchanges call payload attempt (ok t) w =
      let (outcome, w') = c.http.exchange c.http.check_redirect (request env c call payload t) w in
      (heard attempt outcome, w')

  -- One step of a call: up to the exchange, or from there to the end of the round.
  unfoldable pub take_turn : Call V → Option Bytes → Phase V → W → Phase V × W
  unfolding exchanges after_round
  take_turn call payload (ready attempt) w = elim (env.new_request_err (target env c call)) [
    | some e ↦ (done (err (Err.wrap e)), w)
    | none ↦ exchanges call payload attempt (token c.cred w).0 (token c.cred w).1
  ]
  take_turn call payload (heard attempt outcome) w =
      let (end, w') = on_exchange env c call attempt outcome w in (after_round attempt end, w')
  take_turn call payload (done r) w = (done r, w)

  -- One of the calls takes a step.
  pub data Step : List (Caller V) × W → List (Caller V) × W → Type 0 where
    takes :
        (earlier later : List (Caller V)) (x : Caller V) (w : W)
        → Step
            (earlier ++ (x ∷ later), w)
            (
              earlier ++ (record x { phase = (take_turn x.call x.payload x.phase w).0 } ∷ later),
              (take_turn x.call x.payload x.phase w).1,
            )

  pub data Reaches (start : List (Caller V) × W) : List (Caller V) × W → Type 0 where
    here : Reaches start start
    then : {s t : List (Caller V) × W} → Reaches start s → Step s t → Reaches start t

  -- Two steps are a round of the loop.
  exchanges-round :
      (call : Call V) (payload : Option Bytes) (attempt : ℕ) (t : Result Bytes) (w : W)
      → (let (phase, w') = exchanges call payload attempt t w in take_turn call payload phase w')
        ≡ (let (end, w') = with_token env c call attempt payload t w in
            (after_round attempt end, w'))
  unfolding exchanges take_turn with_token after_round
  exchanges-round call payload attempt (err e) w = refl
  exchanges-round call payload attempt (ok t) w = refl

  pub take_turn-round :
      (call : Call V) (payload : Option Bytes) (attempt : ℕ) (w : W)
      → (let (phase, w') = take_turn call payload (ready attempt) w in
          take_turn call payload phase w')
        ≡ (let (end, w') = round env c call payload attempt w in (after_round attempt end, w'))
  unfolding take_turn round after_round
  take_turn-round call payload attempt w =
      elim (Option-cases (env.new_request_err (target env c call))) [
        | inr (e, refused) ↦ rw (refused, take_turn, round) refl
        | inl fine ↦
            rw (fine, take_turn, round)
              (exchanges-round call payload attempt (token c.cred w).0 (token c.cred w).1)
      ]
