-- ===== src/Client/Invariant.antt =====
-- A rule for the loop of do: what a round keeps from attempt to attempt, and what it makes of it when it
-- returns.
use walletd_go.Base.{
  ℕ, zero, suc, ◌+◌, Option, none, some, pos_part, Bytes, inl, inr, Option-cases, subst, arith,
}
use walletd_go.Errors.Chain.{Err}
use walletd_go.Errors.Result.{Result, ok, err}
use walletd_go.Client.Act.{Act}
use walletd_go.Client.World.{Env, token}
use walletd_go.Client.New.{Client}
use walletd_go.Client.Do.{
  Call, Round, returns, continues, target, request, on_exchange, with_token, round, turn, loop,
  send, do_call, do_keyed,
}
use walletd_go.Client.Loop.{loop-send}
use walletd_go.Client.Entry.{body_of, do_call-cases}
use walletd_go.Idempotency.{validate}

module _ {W V : Type 0} (env : Env W) (c : Client W) (call : Call V) (payload : Option Bytes)
    (Before : ℕ → W → Type 0) (Behind : Result (Option V) → W → Type 0) where
  -- A round ends so that the next attempt may begin, or with a result.
  abbrev pub Ends : ℕ → Round V × W → Type 0
  Ends attempt (returns r, w) = Behind r w
  Ends attempt (continues, w) = Before (attempt + 1) w

  abbrev LoopEnds : Option (Result (Option V)) × W → Type 0
  LoopEnds (some r, w) = Behind r w
  LoopEnds (none, w) = Unit

  abbrev pub Keeps : Type 0
  Keeps =
      (attempt : ℕ) (w : W) → Before attempt w → Ends attempt (round env c call payload attempt w)

  turn-LoopEnds :
      (rest : Act W (Option (Result (Option V)))) (attempt : ℕ) (r : Round V) (w : W)
      → ((w' : W) → Before (attempt + 1) w' → LoopEnds (rest w'))
      → Ends attempt (r, w)
      → LoopEnds (turn env c call rest r w)
  unfolding turn
  turn-LoopEnds rest attempt (returns r) w later h = h
  turn-LoopEnds rest attempt continues w later h = later w h

  loop-LoopEnds :
      (fuel attempt : ℕ) (w : W)
      → Keeps
      → Before attempt w
      → LoopEnds (loop env c call fuel payload attempt w)
  unfolding loop
  loop-LoopEnds zero attempt w keeps before = tt
  loop-LoopEnds (suc fuel) attempt w keeps before =
      turn-LoopEnds (loop env c call fuel payload (attempt + 1)) attempt
        (round env c call payload attempt w).0 (round env c call payload attempt w).1
        (λ w' before'. loop-LoopEnds fuel (attempt + 1) w' keeps before') (keeps attempt w before)

  -- If every round keeps it, the loop ends behind it.
  pub send-Behind :
      (w : W)
      → Keeps
      → Before 1 w
      → Behind (send env c call payload w).0 (send env c call payload w).1
  send-Behind w keeps before =
      subst LoopEnds
        (loop-send env c call (suc (pos_part c.retry.max_attempts)) payload w (omega arith))
        (loop-LoopEnds (suc (pos_part c.retry.max_attempts)) 1 w keeps before)

  -- What a token is good for, and what is behind an error of the credential.
  abbrev pub Granted : (ℕ → Bytes → W → Type 0) → ℕ → Result Bytes × W → Type 0
  Granted Ready attempt (ok t, w) = Ready attempt t w
  Granted Ready attempt (err e, w) = Behind (err (Err.wrap e)) w

  -- What keeps it: a credential, that makes the world ready for a request with its token, and the exchange
  -- with what is made of it; an error before that is returned.
  pub record IsContract (Ready : ℕ → Bytes → W → Type 0) : Type 0 where
    pub fails : (attempt : ℕ) (e : Err) (w : W) → Before attempt w → Behind (err e) w
    pub granted : (attempt : ℕ) (w : W) → Before attempt w → Granted Ready attempt (token c.cred w)
    pub exchanged :
        (attempt : ℕ) (t : Bytes) (w : W)
        → Ready attempt t w
        → let r = c.http.exchange c.http.check_redirect (request env c call payload t) w in
          Ends attempt (on_exchange env c call attempt r.0 r.1)

  with_token-Ends :
      (Ready : ℕ → Bytes → W → Type 0) (attempt : ℕ) (t : Result Bytes) (w : W)
      → IsContract Ready
      → Granted Ready attempt (t, w)
      → Ends attempt (with_token env c call attempt payload t w)
  unfolding with_token
  with_token-Ends Ready attempt (err e) w contract h = h
  with_token-Ends Ready attempt (ok t) w contract h = contract.exchanged attempt t w h

  pub IsContract-Keeps : (Ready : ℕ → Bytes → W → Type 0) → IsContract Ready → Keeps
  unfolding round
  IsContract-Keeps Ready contract attempt w before =
      elim (Option-cases (env.new_request_err (target env c call))) [
        | inr (e, refused) ↦ rw (refused, round) (contract.fails attempt (Err.wrap e) w before)
        | inl fine ↦
            rw (fine, round)
              (with_token-Ends Ready attempt (token c.cred w).0 (token c.cred w).1 contract
                (contract.granted attempt w before))
      ]

  -- The same where the credential keeps what the attempt begins with.
  pub record IsInvariant : Type 0 where
    pub fails : (attempt : ℕ) (e : Err) (w : W) → Before attempt w → Behind (err e) w
    pub authorized : (attempt : ℕ) (w : W) → Before attempt w → Before attempt (token c.cred w).1
    pub exchanged :
        (attempt : ℕ) (t : Bytes) (w : W)
        → Before attempt w
        → let r = c.http.exchange c.http.check_redirect (request env c call payload t) w in
          Ends attempt (on_exchange env c call attempt r.0 r.1)

  Before-Granted :
      (attempt : ℕ) (t : Result Bytes) (w : W)
      → IsInvariant
      → Before attempt w
      → Granted (λ n x. Before n) attempt (t, w)
  Before-Granted attempt (ok t) w invariant before = before
  Before-Granted attempt (err e) w invariant before = invariant.fails attempt (Err.wrap e) w before

  pub IsInvariant-IsContract : IsInvariant → IsContract (λ n x. Before n)
  IsInvariant-IsContract invariant = record {
    fails = invariant.fails;
    granted = λ attempt w before.
        Before-Granted attempt (token c.cred w).0 (token c.cred w).1 invariant
          (invariant.authorized attempt w before);
    exchanged = invariant.exchanged;
  }

-- A call of do or doKeyed, with the body that it sends.
module _ {W V : Type 0} (env : Env W) (c : Client W) (call : Call V) (Before : ℕ → W → Type 0)
    (Behind : Result (Option V) → W → Type 0) where
  module _ (Ready : ℕ → Bytes → W → Type 0)
      (contract : IsContract env c call (body_of call.input) Before Behind Ready) where
    pub do_call-kept :
        (w : W) → Before 1 w → Behind (do_call env c call w).0 (do_call env c call w).1
    do_call-kept w before = elim (do_call-cases env c call w) [
      | inl sent ↦ rw sent (
          send-Behind env c call (body_of call.input) Before Behind w
            (IsContract-Keeps env c call (body_of call.input) Before Behind Ready contract) before)
      | inr (e, refused) ↦ rw refused (contract.fails 1 e w before)
    ]

    pub do_keyed-kept :
        (w : W) → Before 1 w → Behind (do_keyed env c call w).0 (do_keyed env c call w).1
    unfolding do_keyed
    do_keyed-kept w before = elim (Option-cases (validate call.idem)) [
      | inl valid ↦ rw (valid, do_keyed) (do_call-kept w before)
      | inr (e, invalid) ↦ rw (invalid, do_keyed) (contract.fails 1 e w before)
    ]

  module _ (invariant : IsInvariant env c call (body_of call.input) Before Behind) where
    pub do_call-Behind :
        (w : W) → Before 1 w → Behind (do_call env c call w).0 (do_call env c call w).1
    do_call-Behind =
        do_call-kept (λ n t. Before n)
          (IsInvariant-IsContract env c call (body_of call.input) Before Behind invariant)

    pub do_keyed-Behind :
        (w : W) → Before 1 w → Behind (do_keyed env c call w).0 (do_keyed env c call w).1
    do_keyed-Behind =
        do_keyed-kept (λ n t. Before n)
          (IsInvariant-IsContract env c call (body_of call.input) Before Behind invariant)

-- A predicate on the world alone.
pub always-Ends :
    {W V : Type 0} (env : Env W) (c : Client W) (call : Call V) (payload : Option Bytes)
    (P : W → Type 0) (attempt : ℕ) (r : Round V × W)
    → P r.1
    → Ends env c call payload (λ n. P) (λ v. P) attempt r
always-Ends env c call payload P attempt (returns v, w) h = h
always-Ends env c call payload P attempt (continues, w) h = h
