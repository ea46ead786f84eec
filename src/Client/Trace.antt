-- ===== src/Client/Trace.antt =====
-- The exchanges of one call: what is sent again, and what explains the result.
use walletd_go.Base.{
  ℕ, zero, suc, ◌+◌, Option, some, List, [], ◌∷◌, ◌++◌, append-nil, append_assoc, pos, pos_part,
  ◌<ℤ◌, Bytes, ◌≡◌, refl, sym, ap, ◌∙◌, ◌⊎◌, inl, inr, Option-cases, arith, subst,
}
use walletd_go.Errors.Chain.{Err}
use walletd_go.Errors.Result.{Result, ok, err}
use walletd_go.Client.Act.{Act}
use walletd_go.Client.World.{Env, token, Credential, api_key, user_token, credential_func}
use walletd_go.Client.New.{Client}
use walletd_go.Client.Do.{
  Call, Round, returns, continues, target, request, with_token, round, turn, loop, send,
}
use walletd_go.Client.Recording.{Exchange, Recorded, recording_env, recording, recording_cred}
use walletd_go.Client.Moved.{IsQuiet}
use walletd_go.Client.Outcomes.{AllowsRetry, Explains, After}
use walletd_go.Client.Rounds.{on_exchange-quiet}
use walletd_go.Client.Loop.{loop-send}

abbrev pub IsFailure : {V : Type 0} → Result (Option V) → Type 0
IsFailure {V} r = (e : Err) × (r ≡ err e)

module _ {W V : Type 0} (env : Env W) (c : Client W) (call : Call V) (payload : Option Bytes) where
  -- An exchange of the call: its request is that of the call, with some token.
  abbrev pub IsOfCall : Exchange → Type 0
  IsOfCall x = (t : Bytes) × (x.request ≡ request env c call payload t)

  -- The exchanges of a run from an attempt on, and its result. After each exchange the run ends, and
  -- the exchange explains the result, or attempts were left and the outcome allowed another one. A run
  -- that ends before it has sent anything fails.
  abbrev pub Attempts : ℕ → Result (Option V) → List Exchange → Type 0
  Attempts attempt r [] = IsFailure r
  Attempts attempt r (x ∷ xs) =
      IsOfCall x
      × (((xs ≡ []) × Explains call x.outcome r)
          ⊎ ((pos attempt <ℤ c.retry.max_attempts)
              × AllowsRetry call x.outcome
              × Attempts (attempt + 1) r xs))

module _ {W V : Type 0} (world : Env W) (client : Client W) (call : Call V) where
  abbrev env : Env (Recorded W)
  env = recording_env world

  abbrev c : Client (Recorded W)
  c = recording client

  recorded : Recorded W → List Exchange
  recorded s = s.1

  recorded-IsQuiet : IsQuiet env recorded
  unfolding recorded
  recorded-IsQuiet = record {
    sleep = λ d s. refl;
    rand = λ n s. refl;
    discard = λ n resp s. refl;
    close = λ resp s. refl;
  }

  token-quiet : (cred : Credential W) (s : Recorded W) → (token (recording_cred cred) s).1.1 ≡ s.1
  unfolding token
  token-quiet (api_key key) s = refl
  token-quiet (user_token t) s = refl
  token-quiet (credential_func f) s = refl

  -- One round: nothing was sent and the run fails, or one exchange was.
  abbrev RoundTrace : Option Bytes → ℕ → List Exchange → Round V × Recorded W → Type 0
  RoundTrace payload attempt before res =
      ((res.1.1 ≡ before) × ((e : Err) × (res.0 ≡ returns (err e))))
      ⊎ ((x : Exchange) × (res.1.1 ≡ before ++ x ∷ [])
          × IsOfCall world client call payload x
          × After c call attempt x.outcome res.0)

  with_token-RoundTrace :
      (payload : Option Bytes) (attempt : ℕ) (t : Result Bytes) (s : Recorded W)
      → RoundTrace payload attempt s.1 (with_token env c call attempt payload t s)
  unfolding with_token recorded
  with_token-RoundTrace payload attempt (err e) s = inl (refl, (Err.wrap e, refl))
  with_token-RoundTrace payload attempt (ok t) s =
      let (outcome, s') = c.http.exchange c.http.check_redirect (request env c call payload t) s in
      let (silent, after) =
        on_exchange-quiet env c call recorded recorded-IsQuiet attempt outcome s' in
      inr (
        record { request = request env c call payload t; outcome = outcome },
        silent,
        (t, unfold request target in refl),
        after,
      )

  round-RoundTrace :
      (payload : Option Bytes) (attempt : ℕ) (s : Recorded W)
      → RoundTrace payload attempt s.1 (round env c call payload attempt s)
  unfolding round
  round-RoundTrace payload attempt s =
      elim (Option-cases (world.new_request_err (target env c call))) [
        | inr (e, refused) ↦ rw (refused, round) (inl (refl, (Err.wrap e, refl)))
        | inl fine ↦
            rw (fine, round)
              (rw (token-quiet client.cred s) at
                (with_token-RoundTrace payload attempt (token c.cred s).0 (token c.cred s).1))
      ]

  -- What a run from a state adds to the record.
  abbrev Run : Option Bytes → ℕ → List Exchange → Result (Option V) → List Exchange → Type 0
  Run payload attempt before r after =
      (sent : List Exchange) × (after ≡ before ++ sent)
      × Attempts world client call payload attempt r sent

  turn-Run :
      (payload : Option Bytes) (attempt : ℕ) (rest : Act (Recorded W) (Option (Result (Option V))))
      → ((s : Recorded W) (r : Result (Option V))
          → (rest s).0 ≡ some r
          → Run payload (attempt + 1) s.1 r (rest s).1.1)
      → (before : List Exchange) (round : Round V) (s : Recorded W) (r : Result (Option V))
      → RoundTrace payload attempt before (round, s)
      → (turn env c call rest round s).0 ≡ some r
      → Run payload attempt before r (turn env c call rest round s).1.1
  unfolding turn recorded
  turn-Run payload attempt rest h before (returns r') s r (inl (same, (e, failed))) ends =
      ([], same ∙ sym (append-nil before), (e, cc))
  turn-Run payload attempt rest h before continues s r (inl (same, (e, failed))) ends = absurd cc
  turn-Run payload attempt rest h before (returns r') s r (inr (x, added, its, why)) ends =
      let same : r' ≡ r = cc in
      (x ∷ [], added, (its, inl (refl, subst (λ v. Explains call x.outcome v) same why)))
  turn-Run payload attempt rest h before continues s r (inr (x, added, its, (left, allows))) ends =
      let (xs, more, runs) = h s r ends in
      (
        x ∷ xs,
        more ∙ ap (λ l. l ++ xs) added ∙ append_assoc before (x ∷ []) xs,
        (its, inr (left, allows, runs)),
      )

  loop-Run :
      (fuel : ℕ) (payload : Option Bytes) (attempt : ℕ) (s : Recorded W) (r : Result (Option V))
      → (loop env c call fuel payload attempt s).0 ≡ some r
      → Run payload attempt s.1 r (loop env c call fuel payload attempt s).1.1
  unfolding loop
  loop-Run zero payload attempt s r ends = absurd cc
  loop-Run (suc fuel) payload attempt s r ends =
      turn-Run payload attempt (loop env c call fuel payload (attempt + 1))
        (loop-Run fuel payload (attempt + 1)) s.1 (round env c call payload attempt s).0
        (round env c call payload attempt s).1 r (round-RoundTrace payload attempt s) ends

  pub send-Run :
      (payload : Option Bytes) (s : Recorded W)
      → Run payload 1 s.1 (send env c call payload s).0 (send env c call payload s).1.1
  send-Run payload s =
      let returned =
        loop-send env c call (suc (pos_part client.retry.max_attempts)) payload s (omega arith) in
      subst (λ l. Run payload 1 s.1 (send env c call payload s).0 l) (ap (λ v. v.1.1) returned)
        (loop-Run (suc (pos_part client.retry.max_attempts)) payload 1 s
          (send env c call payload s).0 (ap (λ v. v.0) returned))
