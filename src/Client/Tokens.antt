-- ===== src/Client/Tokens.antt =====
-- The tokens of the credential: do and doKeyed ask for one for every request, and send no other.
use walletd_go.Base.{ℕ, Option, none, some, ◌++◌, Bytes, codes, ◌≡◌, refl, ◌∙◌}
use walletd_go.Errors.Result.{Result, ok, err}
use walletd_go.Http.Message.{Request}
use walletd_go.Client.World.{Env, token}
use walletd_go.Client.New.{Client}
use walletd_go.Client.Do.{Call, request, on_exchange, do_call, do_keyed}
use walletd_go.Client.Entry.{body_of}
use walletd_go.Client.Moved.{IsQuiet}
use walletd_go.Client.Rounds.{on_exchange-quiet}
use walletd_go.Client.Invariant.{IsContract, Granted, always-Ends, do_call-kept, do_keyed-kept}

-- The token that a credential gives out.
abbrev pub issued : Result Bytes → Option Bytes
issued (ok t) = some t
issued (err e) = none

-- A world that keeps the token that was given out and not yet sent, and promises nothing of a step out of
-- turn: of a second token while one is unsent, and of a request that does not carry the unsent one.
pub record TracksTokens {W : Type 0} (env : Env W) (c : Client W) (unsent : W → Option Bytes)
    : Type 0 where
  pub quiet : IsQuiet env unsent
  pub granted : (w : W) → unsent w ≡ none → unsent (token c.cred w).1 ≡ issued (token c.cred w).0
  pub sent :
      (req : Request) (w : W) (t : Bytes)
      → unsent w ≡ some t
      → req.authorization ≡ codes "Bearer " ++ t
      → unsent (c.http.exchange c.http.check_redirect req w).1 ≡ none

module _ {W V : Type 0} (env : Env W) (c : Client W) (call : Call V) (unsent : W → Option Bytes)
    (tracks : TracksTokens env c unsent) where
  abbrev IsSpent : W → Type 0
  IsSpent w = unsent w ≡ none

  abbrev Holds : ℕ → Bytes → W → Type 0
  Holds attempt t w = unsent w ≡ some t

  request-authorization :
      (t : Bytes) → (request env c call (body_of call.input) t).authorization ≡ codes "Bearer " ++ t
  unfolding request
  request-authorization t = refl

  issued-Granted :
      (attempt : ℕ) (t : Result Bytes) (w : W)
      → unsent w ≡ issued t
      → Granted env c call (body_of call.input) (λ n. IsSpent) (λ r. IsSpent) Holds attempt (t, w)
  issued-Granted attempt (ok t) w h = h
  issued-Granted attempt (err e) w h = h

  IsSpent-IsContract :
      IsContract env c call (body_of call.input) (λ n. IsSpent) (λ r. IsSpent) Holds
  IsSpent-IsContract = record {
    fails = λ attempt e w spent. spent;
    granted = λ attempt w spent.
        issued-Granted attempt (token c.cred w).0 (token c.cred w).1 (tracks.granted w spent);
    exchanged = λ attempt t w holds.
        let r =
          c.http.exchange c.http.check_redirect (request env c call (body_of call.input) t) w in
        always-Ends env c call (body_of call.input) IsSpent attempt
          (on_exchange env c call attempt r.0 r.1)
          ((on_exchange-quiet env c call unsent tracks.quiet attempt r.0 r.1).0
            ∙ tracks.sent (request env c call (body_of call.input) t) w t holds
                (request-authorization t));
  }

-- The credential is asked for a token once for every request, and the request carries that token: in a
-- world that promises nothing of a request with another token, such as the one of an attempt before, nor of
-- a second token while one is unsent, and that waits, drains, closes, draws and reads the clock without
-- touching the unsent token, do and doKeyed leave no token unsent when they start with none, whatever the
-- server and the network answer.
pub do_call-authorized :
    {W V : Type 0} (env : Env W) (c : Client W) (call : Call V) (unsent : W → Option Bytes) (w : W)
    → TracksTokens env c unsent
    → unsent w ≡ none
    → (unsent (do_call env c call w).1 ≡ none) × (unsent (do_keyed env c call w).1 ≡ none)
do_call-authorized env c call unsent w tracks spent =
    let contract = IsSpent-IsContract env c call unsent tracks in
    (
      do_call-kept env c call _ _ _ contract w spent,
      do_keyed-kept env c call _ _ _ contract w spent,
    )
