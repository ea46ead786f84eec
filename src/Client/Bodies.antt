-- ===== src/Client/Bodies.antt =====
-- The bodies of answers: do and doKeyed close each before they send, wait or return.
use walletd_go.Base.{ℕ, Option, none, some, ℤ, pos, leb_ℤ, ◌≡◌, inl, inr, Bool-cases}
use walletd_go.Errors.Result.{Result, ok, err}
use walletd_go.Http.Message.{Request, Response}
use walletd_go.Client.World.{Env, token, drain_close}
use walletd_go.Client.Policy.{RetryPolicy, backoff, jitter, backoff_step, wait}
use walletd_go.Client.New.{Client}
use walletd_go.Client.Do.{Call, Round, request, on_exchange, do_call, do_keyed}
use walletd_go.Client.Entry.{body_of}
use walletd_go.Client.Invariant.{IsInvariant, always-Ends, do_call-Behind, do_keyed-Behind}
use walletd_go.Client.Moved.{IsMoved}
use walletd_go.Client.Handlers.{Handles}
use walletd_go.Client.Rounds.{on_exchange-Handles}

-- The answer that an exchange hands over with its body open.
abbrev pub handed : Result Response → Option Response
handed (ok resp) = some resp
handed (err e) = none

-- A world that keeps which answer has its body open, and promises nothing of a step out of turn: of an
-- exchange, a wait, a draw or a token while a body is open, of a read or a close of another body than
-- the open one, and of a close where none is open.
pub record TracksBodies {W : Type 0} (env : Env W) (c : Client W) (open_body : W → Option Response)
    : Type 0 where
  pub exchanged :
      (req : Request) (w : W)
      → open_body w ≡ none
      → let r = c.http.exchange c.http.check_redirect req w in open_body r.1 ≡ handed r.0
  pub discarded :
      (n : ℕ) (resp : Response) (w : W)
      → open_body w ≡ some resp
      → open_body (env.discard n resp w) ≡ some resp
  pub closed :
      (resp : Response) (w : W) → open_body w ≡ some resp → open_body (env.close resp w) ≡ none
  pub slept : (d : ℤ) (w : W) → open_body w ≡ none → open_body (env.sleep d w).1 ≡ none
  pub drawn : (n : ℕ) (w : W) → open_body w ≡ none → open_body (env.rand n w).1 ≡ none
  pub authorized : (w : W) → open_body w ≡ none → open_body (token c.cred w).1 ≡ none

module _ {W V : Type 0} (env : Env W) (c : Client W) (call : Call V)
    (open_body : W → Option Response) (tracks : TracksBodies env c open_body) where
  abbrev IsFree : W → Type 0
  IsFree w = open_body w ≡ none

  -- From a state with no body open, and from one with the body of an answer open, to one with none.
  abbrev KeepsFree : ℕ → W → W → Type 0
  KeepsFree attempt w w' = IsFree w → IsFree w'

  abbrev Frees : Response → ℕ → W → W → Type 0
  Frees resp attempt w w' = open_body w ≡ some resp → IsFree w'

  backoff-IsFree :
      (policy : RetryPolicy) (attempt : ℕ) (w : W)
      → IsFree w
      → IsFree (backoff env policy attempt w).1
  unfolding backoff jitter
  backoff-IsFree policy attempt w free = elim (Bool-cases (leb_ℤ policy.base_delay (pos 0))) [
    | inl e ↦ rw e free
    | inr e ↦ elim (Bool-cases (leb_ℤ (backoff_step policy attempt) (pos 0))) [
      | inl z ↦ rw (e, z) free
      | inr z ↦ rw (e, z) (tracks.drawn _ w free)
    ]
  ]

  wait-IsFree : (d : ℤ) (w : W) → IsFree w → IsFree (wait env d w).1
  unfolding wait
  wait-IsFree d w free = elim (Bool-cases (leb_ℤ d (pos 0))) [
    | inl e ↦ rw e free
    | inr e ↦ rw e (tracks.slept d w free)
  ]

  drain_close-IsFree :
      (resp : Response) (w : W) → open_body w ≡ some resp → IsFree (drain_close env resp w)
  unfolding drain_close
  drain_close-IsFree resp w opened = tracks.closed resp _ (tracks.discarded _ resp w opened)

  Frees-IsMoved : IsMoved env c.retry Frees KeepsFree
  Frees-IsMoved = record {
    stays = λ attempt w free. free;
    backs_off = λ attempt w. backoff-IsFree c.retry attempt w;
    waits = λ attempt w d left bound free.
        wait-IsFree d (backoff env c.retry attempt w).1 (backoff-IsFree c.retry attempt w free);
    drains = λ resp attempt w w' keeps opened. keeps (drain_close-IsFree resp w opened);
    closes = λ resp attempt w w' keeps opened. keeps (tracks.closed resp w opened);
  }

  Handles-IsFree :
      (attempt : ℕ) (outcome : Result Response) (w : W) (res : Round V × W)
      → open_body w ≡ handed outcome
      → Handles c call Frees KeepsFree attempt outcome w res
      → IsFree res.1
  Handles-IsFree attempt (ok resp) w res opened (frees, after) = frees opened
  Handles-IsFree attempt (err e) w res free (keeps, after) = keeps free

  IsFree-IsInvariant : IsInvariant env c call (body_of call.input) (λ attempt. IsFree) (λ r. IsFree)
  IsFree-IsInvariant = record {
    fails = λ attempt e w free. free;
    authorized = λ attempt w free. tracks.authorized w free;
    exchanged = λ attempt t w free.
        let r =
          c.http.exchange c.http.check_redirect (request env c call (body_of call.input) t) w in
        always-Ends env c call (body_of call.input) IsFree attempt
          (on_exchange env c call attempt r.0 r.1)
          (Handles-IsFree attempt r.0 r.1 (on_exchange env c call attempt r.0 r.1)
            (tracks.exchanged (request env c call (body_of call.input) t) w free)
            (on_exchange-Handles env c call Frees KeepsFree Frees-IsMoved attempt r.0 r.1));
  }

-- Every body of an answer is closed, once, and on every path: by an answer that is decoded, refused,
-- unexpected or broken off, before the client waits, draws, asks for a token or sends again, and before do
-- and doKeyed return. The world says which body is open, and promises nothing of a step that is taken while
-- a body is open, of a second close, or of a read or a close of another body; do and doKeyed take a
-- state with none open to one with none open, whatever the server and the network answer.
pub do_call-closed :
    {W V : Type 0} (env : Env W) (c : Client W) (call : Call V) (open_body : W → Option Response)
    (w : W)
    → TracksBodies env c open_body
    → open_body w ≡ none
    → (open_body (do_call env c call w).1 ≡ none) × (open_body (do_keyed env c call w).1 ≡ none)
do_call-closed env c call open_body w tracks free =
    let invariant = IsFree-IsInvariant env c call open_body tracks in
    (
      do_call-Behind env c call _ _ invariant w free,
      do_keyed-Behind env c call _ _ invariant w free,
    )
