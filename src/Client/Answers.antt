-- ===== src/Client/Answers.antt =====
-- do of client.go in any world: a value that a call returns is that of an answer to a request of the call.
use walletd_go.Base.{ℕ, Option, Bytes, ◌≡◌, subst}
use walletd_go.Errors.Result.{Result, ok, err}
use walletd_go.Client.World.{Env}
use walletd_go.Client.New.{Client}
use walletd_go.Client.Moved.{IsMoved}
use walletd_go.Client.Outcomes.{After, Explains}
use walletd_go.Client.Rounds.{on_exchange-Ends}
use walletd_go.Client.Do.{Call, Round, returns, continues, on_exchange, request, do_call}
use walletd_go.Client.Entry.{body_of}
use walletd_go.Client.Invariant.{Ends, IsInvariant, do_call-Behind}

module _ {W V : Type 0} (env : Env W) (c : Client W) (call : Call V) where
  -- Some answer to a request of the call explains a result.
  abbrev pub IsAnswer : Option Bytes → Result (Option V) → Type 0
  IsAnswer payload r =
      (t : Bytes) × (w : W) × Explains call
        (c.http.exchange c.http.check_redirect (request env c call payload t) w).0 r

  -- What a result says of the answers.
  abbrev IsAnswered : Option Bytes → Result (Option V) → W → Type 0
  IsAnswered payload (err e) w = Unit
  IsAnswered payload (ok v) w = IsAnswer payload (ok v)

  abbrev Anything : ℕ → W → Type 0
  Anything attempt w = Unit

  abbrev Anyhow : ℕ → W → W → Type 0
  Anyhow attempt w w' = Unit

  Anyhow-IsMoved : IsMoved env c.retry (λ resp. Anyhow) Anyhow
  Anyhow-IsMoved = record {
    stays = λ attempt s. tt;
    backs_off = λ attempt s. tt;
    waits = λ attempt s d left bound. tt;
    drains = λ resp attempt s s' h. tt;
    closes = λ resp attempt s s' h. tt;
  }

  After-Ends :
      (payload : Option Bytes) (attempt : ℕ) (t : Bytes) (w : W) (res : Round V × W)
      → After c call attempt
          (c.http.exchange c.http.check_redirect (request env c call payload t) w).0
          res.0
      → Ends env c call payload Anything (IsAnswered payload) attempt res
  After-Ends payload attempt t w (continues, w') h = tt
  After-Ends payload attempt t w (returns (err e), w') h = tt
  After-Ends payload attempt t w (returns (ok v), w') h = (t, w, h)

  IsAnswered-IsInvariant :
      (payload : Option Bytes) → IsInvariant env c call payload Anything (IsAnswered payload)
  IsAnswered-IsInvariant payload = record {
    fails = λ attempt e w h. tt;
    authorized = λ attempt w h. tt;
    exchanged = λ attempt t w h.
        let r = c.http.exchange c.http.check_redirect (request env c call payload t) w in
        After-Ends payload attempt t w (on_exchange env c call attempt r.0 r.1)
          (on_exchange-Ends env c call Anyhow Anyhow-IsMoved attempt r.0 r.1).1;
  }

  -- Whatever the world does, a call that returns without an error returns what an answer to one of its
  -- requests says: the value that a complete 2xx body decodes to, or nothing where nothing is decoded.
  pub do_call-IsAnswer :
      (w : W) (v : Option V)
      → (do_call env c call w).0 ≡ ok v
      → IsAnswer (body_of call.input) (ok v)
  do_call-IsAnswer w v e =
      subst (λ r. IsAnswered (body_of call.input) r (do_call env c call w).1) e
        (do_call-Behind env c call _ _ (IsAnswered-IsInvariant (body_of call.input)) w tt)
