-- ===== src/Client/Loop.antt =====
-- The loop of `do`: the fuel is enough in every world, and the exchanges of a recorded run.
use walletd_go.Base.{
  ℕ, zero, suc, ◌+◌, ◌<◌, Option, none, some, List, [], pos, pos_part, ◌<ℤ◌, Bytes, ◌≡◌, refl, ◌∙◌,
  inl, inr, Option-cases, arith,
}
use walletd_go.Errors.Result.{Result, ok, err}
use walletd_go.Http.Message.{Response}
use walletd_go.Client.Act.{Act}
use walletd_go.Client.World.{Env, token}
use walletd_go.Client.New.{Client}
use walletd_go.Client.Do.{
  Call, Round, returns, continues, target, request, with_token, round, turn, loop, finished, send,
}
use walletd_go.Client.Recording.{Exchange}
use walletd_go.Client.Moved.{IsQuiet}
use walletd_go.Client.Outcomes.{After}
use walletd_go.Client.Rounds.{on_exchange-quiet}

module _ {S V : Type 0} (env : Env S) (c : Client S) (call : Call V) where
  -- A world with nothing recorded.
  abbrev nothing : S → List Exchange
  nothing s = []

  nothing-IsQuiet : IsQuiet env nothing
  nothing-IsQuiet = record {
    sleep = λ d s. refl;
    rand = λ n s. refl;
    discard = λ n resp s. refl;
    close = λ resp s. refl;
  }

  -- A round goes on only while attempts are left.
  abbrev pub IsBounded : ℕ → Round V → Type 0
  IsBounded attempt (returns r) = Unit
  IsBounded attempt continues = pos attempt <ℤ c.retry.max_attempts

  After-IsBounded :
      (attempt : ℕ) (outcome : Result Response) (r : Round V)
      → After c call attempt outcome r
      → IsBounded attempt r
  After-IsBounded attempt outcome (returns r) h = tt
  After-IsBounded attempt outcome continues h = h.0

  with_token-IsBounded :
      (payload : Option Bytes) (attempt : ℕ) (t : Result Bytes) (s : S)
      → IsBounded attempt (with_token env c call attempt payload t s).0
  unfolding with_token
  with_token-IsBounded payload attempt (err e) s = tt
  with_token-IsBounded payload attempt (ok t) s =
      let (outcome, s') = c.http.exchange c.http.check_redirect (request env c call payload t) s in
      After-IsBounded attempt outcome _
        (on_exchange-quiet env c call nothing nothing-IsQuiet attempt outcome s').1

  pub round-IsBounded :
      (payload : Option Bytes) (attempt : ℕ) (s : S)
      → IsBounded attempt (round env c call payload attempt s).0
  unfolding round
  round-IsBounded payload attempt s =
      elim (Option-cases (env.new_request_err (target env c call))) [
        | inr (e, refused) ↦ rw (refused, round) tt
        | inl fine ↦
            rw (fine, round)
              (with_token-IsBounded payload attempt (token c.cred s).0 (token c.cred s).1)
      ]

  -- With more fuel than attempts are left, the loop returns.
  turn_returns :
      (rest : Act S (Option (Result (Option V)))) (attempt : ℕ) (r : Round V) (s : S)
      → IsBounded attempt r
      → (pos attempt <ℤ c.retry.max_attempts
          → (s' : S) → (v : Result (Option V)) × ((rest s').0 ≡ some v))
      → (v : Result (Option V)) × ((turn env c call rest r s).0 ≡ some v)
  unfolding turn
  turn_returns rest attempt (returns r) s b h = (r, refl)
  turn_returns rest attempt continues s b h = h b s

  pub loop_returns :
      (fuel : ℕ) (payload : Option Bytes) (attempt : ℕ) (s : S)
      → pos_part c.retry.max_attempts < attempt + fuel
      → 0 < fuel
      → (v : Result (Option V)) × ((loop env c call fuel payload attempt s).0 ≡ some v)
  unfolding loop
  loop_returns zero payload attempt s enough some_fuel = absurd (omega arith)
  loop_returns (suc fuel) payload attempt s enough some_fuel =
      turn_returns (loop env c call fuel payload (attempt + 1)) attempt
        (round env c call payload attempt s).0 (round env c call payload attempt s).1
        (round-IsBounded payload attempt s)
        λ left s'. loop_returns fuel payload (attempt + 1) s' (omega arith) (omega arith)

  turn_agrees :
      (rest rest' : Act S (Option (Result (Option V)))) (attempt : ℕ) (r : Round V) (s : S)
      → IsBounded attempt r
      → (pos attempt <ℤ c.retry.max_attempts → (s' : S) → rest s' ≡ rest' s')
      → turn env c call rest r s ≡ turn env c call rest' r s
  unfolding turn
  turn_agrees rest rest' attempt (returns r) s b h = refl
  turn_agrees rest rest' attempt continues s b h = h b s

  loop_agrees :
      (fuel fuel' : ℕ) (payload : Option Bytes) (attempt : ℕ) (s : S)
      → pos_part c.retry.max_attempts < attempt + fuel
      → pos_part c.retry.max_attempts < attempt + fuel'
      → 0 < fuel
      → 0 < fuel'
      → loop env c call fuel payload attempt s ≡ loop env c call fuel' payload attempt s
  unfolding loop
  loop_agrees zero fuel' payload attempt s e e' p p' = absurd (omega arith)
  loop_agrees (suc fuel) zero payload attempt s e e' p p' = absurd (omega arith)
  loop_agrees (suc fuel) (suc fuel') payload attempt s e e' p p' =
      turn_agrees (loop env c call fuel payload (attempt + 1))
        (loop env c call fuel' payload (attempt + 1)) attempt (round env c call payload attempt s).0
        (round env c call payload attempt s).1 (round-IsBounded payload attempt s)
        λ left s'.
          loop_agrees fuel fuel' payload (attempt + 1) s' (omega arith) (omega arith) (omega arith)
            (omega arith)

  finished_lem :
      (r : Option (Result (Option V)) × S) (s : S)
      → (v : Result (Option V)) × (r.0 ≡ some v)
      → r ≡ (some (finished env c call r s).0, (finished env c call r s).1)
  unfolding finished
  finished_lem (some v, s') s h = refl
  finished_lem (none, s') s (v, e) = cc

-- The loop of `do` returns in every world, whatever the server, the network and the context do: with
-- every fuel of one more than MaxAttempts or more it ends, and always with the same result and in the
-- same state, which is that of `send`. The bound on the attempts alone ends it.
pub loop-send :
    {S V : Type 0} (env : Env S) (c : Client S) (call : Call V) (fuel : ℕ) (payload : Option Bytes)
    (s : S)
    → pos_part c.retry.max_attempts < fuel
    → loop env c call fuel payload 1 s
      ≡ (some (send env c call payload s).0, (send env c call payload s).1)
unfolding send
loop-send env c call fuel payload s enough =
    loop_agrees env c call fuel (suc (pos_part c.retry.max_attempts)) payload 1 s (omega arith)
      (omega arith) (omega arith) (omega arith)
    ∙ finished_lem env c call (loop env c call (suc (pos_part c.retry.max_attempts)) payload 1 s) s
        (loop_returns env c call (suc (pos_part c.retry.max_attempts)) payload 1 s (omega arith)
          (omega arith))
