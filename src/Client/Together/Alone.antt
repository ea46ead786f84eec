-- ===== src/Client/Together/Alone.antt =====
-- One call alone takes the steps that the loop of do takes.
use walletd_go.Base.{
  ℕ, zero, suc, ◌+◌, Option, some, List, [], ◌∷◌, pos_part, Bytes, ◌≡◌, ap, subst, arith,
}
use walletd_go.Errors.Result.{Result}
use walletd_go.Client.Act.{Act}
use walletd_go.Client.World.{Env}
use walletd_go.Client.New.{Client}
use walletd_go.Client.Do.{Call, Round, returns, continues, round, turn, loop, send}
use walletd_go.Client.Loop.{loop-send}
use walletd_go.Client.Together.{
  Phase, ready, done, Caller, after_round, take_turn, take_turn-round, Reaches, then, here, takes,
}

module _ {W V : Type 0} (env : Env W) (c : Client W) (call : Call V) (payload : Option Bytes) where
  abbrev pub alone : Phase V × W → List (Caller V) × W
  alone s = (record { call = call; payload = payload; phase = s.0 } ∷ [], s.1)

  -- One step, and two steps.
  one_step :
      (start : List (Caller V) × W) (phase : Phase V) (w : W)
      → Reaches env c start (alone (phase, w))
      → Reaches env c start (alone (take_turn env c call payload phase w))
  one_step start phase w reached =
      then reached (takes [] [] (record { call = call; payload = payload; phase = phase }) w)

  round_steps :
      (start : List (Caller V) × W) (attempt : ℕ) (w : W)
      → Reaches env c start (alone (ready attempt, w))
      → Reaches env c start (
          alone (
            after_round env c attempt (round env c call payload attempt w).0,
            (round env c call payload attempt w).1,
          ))
  round_steps start attempt w reached =
      subst (λ s. Reaches env c start (alone s)) (take_turn-round env c call payload attempt w)
        (one_step start _ _ (one_step start (ready attempt) w reached))

  turn_steps :
      (start : List (Caller V) × W) (rest : Act W (Option (Result (Option V)))) (attempt : ℕ)
      (end : Round V) (w : W) (r : Result (Option V))
      → ((w' : W)
          → Reaches env c start (alone (ready (attempt + 1), w'))
          → (rest w').0 ≡ some r
          → Reaches env c start (alone (done r, (rest w').1)))
      → Reaches env c start (alone (after_round env c attempt end, w))
      → (turn env c call rest end w).0 ≡ some r
      → Reaches env c start (alone (done r, (turn env c call rest end w).1))
  unfolding turn after_round
  turn_steps start rest attempt (returns r') w r later reached ends =
      let same : r' ≡ r = cc in subst (λ v. Reaches env c start (alone (done v, w))) same reached
  turn_steps start rest attempt continues w r later reached ends = later w reached ends

  loop_steps :
      (start : List (Caller V) × W) (fuel attempt : ℕ) (w : W) (r : Result (Option V))
      → Reaches env c start (alone (ready attempt, w))
      → (loop env c call fuel payload attempt w).0 ≡ some r
      → Reaches env c start (alone (done r, (loop env c call fuel payload attempt w).1))
  unfolding loop
  loop_steps start zero attempt w r reached ends = absurd cc
  loop_steps start (suc fuel) attempt w r reached ends =
      turn_steps start (loop env c call fuel payload (attempt + 1)) attempt
        (round env c call payload attempt w).0 (round env c call payload attempt w).1 r
        (λ w' reached' ends'. loop_steps start fuel (attempt + 1) w' r reached' ends')
        (round_steps start attempt w reached) ends

-- The steps that calls take in turns are those of the loop of do: a call that is alone reaches, in its
-- steps, the result that the loop returns, in the state that the loop leaves.
send_reached :
    {W V : Type 0} (env : Env W) (c : Client W) (call : Call V) (payload : Option Bytes) (w : W)
    → Reaches env c (alone env c call payload (ready 1, w)) (
        alone env c call payload
          (done (send env c call payload w).0, (send env c call payload w).1))
send_reached env c call payload w =
    let returned =
      loop-send env c call (suc (pos_part c.retry.max_attempts)) payload w (omega arith) in
    subst
      (λ v.
        Reaches env c (alone env c call payload (ready 1, w))
          (alone env c call payload (done (send env c call payload w).0, v)))
      (ap (λ v. v.1) returned)
      (loop_steps env c call payload (alone env c call payload (ready 1, w))
        (suc (pos_part c.retry.max_attempts)) 1 w (send env c call payload w).0 here
        (ap (λ v. v.0) returned))
