-- ===== src/Client/Rounds.antt =====
-- What one round of the loop leaves behind: at most one exchange, which explains how the round ends.
use walletd_go.Base.{
  ℕ, ◌≤◌, ◌<◌, ◌&&◌, ◌||◌, Option, none, some, ltb, leb, Bytes, ◌≡◌, refl, inl, inr, Bool-cases,
  arith,
}
use walletd_go.Errors.Sentinel.{Sentinel}
use walletd_go.Errors.Chain.{Err, StdError, is_std}
use walletd_go.Errors.Result.{Result, ok, err}
use walletd_go.Http.Message.{Response}
use walletd_go.Client.World.{Env, drain_close}
use walletd_go.Client.New.{Client}
use walletd_go.Client.Moved.{IsQuiet, IsMoved, Same, Same-IsMoved}
use walletd_go.Client.Do.{
  Call, Round, returns, retry_or, on_error_status, on_broken_body, on_decoded, on_body, on_success,
  on_response, on_exchange, transport_error,
}
use walletd_go.Client.Handlers.{
  Ends, Answers, Handles, drained, closed, retry_or-Ends, unless_over-Ends, on_error_status-Ends,
  on_transport_error-Ends,
}
use walletd_go.Client.Outcomes.{BrokeOff, After}

module _ {S V : Type 0} (env : Env S) (c : Client S) (call : Call V)
    (Opened : Response → ℕ → S → S → Type 0) (Moved : ℕ → S → S → Type 0)
    (moves : IsMoved env c.retry Opened Moved) where
  module _ (attempt : ℕ) (resp : Response) (low : 200 ≤ resp.status)
      (high : resp.status < 300) where
    on_broken_body-Ends :
        (e : Err) (s : S)
        → BrokeOff call resp
        → Ends c call Moved attempt (ok resp) s (on_broken_body env c call attempt e s)
    unfolding on_broken_body
    on_broken_body-Ends e s broke =
        unless_over-Ends env c call Opened Moved moves attempt (ok resp) (λ x. x)
          (retry_or env c call attempt (transport_error e)) s
          (retry_or-Ends env c call Opened Moved moves attempt (ok resp) (transport_error e) s
            (λ safe. inr (safe, inr broke)))

    module _ (decode : Bytes → Result V) (whole : resp.body_error ≡ none)
        (decodes : call.output ≡ some decode) where
      on_decoded-Ends :
          (r : Result V) (s : S)
          → decode resp.body ≡ r
          → Ends c call Moved attempt (ok resp) s (on_decoded env c call attempt r s)
      unfolding on_decoded
      on_decoded-Ends (ok v) s e =
          (moves.stays attempt s, (resp, decode, refl, low, high, whole, decodes, e))
      on_decoded-Ends (err x) s e =
          elim (Bool-cases (is_std x StdError.eof || is_std x StdError.unexpected_eof)) [
            | inl broken ↦
                rw broken
                  (on_broken_body-Ends x s (low, high, decode, decodes, inr (whole, x, e, broken)))
            | inr other ↦ rw other (moves.stays attempt s, tt)
          ]

    on_body-Ends :
        (decode : Bytes → Result V) (broken : Option Err) (s : S)
        → call.output ≡ some decode
        → resp.body_error ≡ broken
        → Ends c call Moved attempt
            (ok resp)
            s
            (on_body env c call attempt decode resp.body broken s)
    unfolding on_body
    on_body-Ends decode (some e) s decodes b =
        on_broken_body-Ends e s (low, high, decode, decodes, inl (e, b))
    on_body-Ends decode none s decodes b =
        on_decoded-Ends decode b decodes (decode resp.body) s refl

    on_success-Answers :
        (output : Option (Bytes → Result V)) (s : S)
        → call.output ≡ output
        → Answers c call Opened attempt resp s (on_success env c call attempt output resp s)
    unfolding on_success
    on_success-Answers none s e =
        drained env c call Opened Moved moves attempt resp s
          (returns (ok none), drain_close env resp s)
          (moves.stays attempt (drain_close env resp s), (resp, refl, low, high, e))
    on_success-Answers (some decode) s e =
        closed env c call Opened Moved moves attempt resp s
          (on_body env c call attempt decode resp.body resp.body_error (env.close resp s))
          (on_body-Ends decode resp.body_error (env.close resp s) e refl)

  on_response-Answers :
      (attempt : ℕ) (resp : Response) (s : S)
      → Answers c call Opened attempt resp s (on_response env c call attempt resp s)
  unfolding on_response
  on_response-Answers attempt resp s =
      elim (Bool-cases (leb 400 resp.status && ltb resp.status 600)) [
        | inl refused ↦ rw refused (
            drained env c call Opened Moved moves attempt resp s
              (on_error_status env c call attempt resp s)
              (on_error_status-Ends env c call Opened Moved moves attempt resp s))
        | inr other ↦ elim (Bool-cases (ltb resp.status 200 || leb 300 resp.status)) [
          | inl unexpected ↦
              rw (other, unexpected)
                (drained env c call Opened Moved moves attempt resp s
                  (
                    returns (err (Err.wrap (Err.sentinel Sentinel.unexpected_status))),
                    drain_close env resp s,
                  )
                  (moves.stays attempt (drain_close env resp s), tt))
          | inr success ↦
              rw (other, success)
                (on_success-Answers attempt resp (ground arith) (ground arith) call.output s refl)
        ]
      ]

  -- Whatever the exchange came to, its handler moves the state so and ends in one of these ways.
  pub on_exchange-Handles :
      (attempt : ℕ) (outcome : Result Response) (s : S)
      → Handles c call Opened Moved attempt outcome s (on_exchange env c call attempt outcome s)
  unfolding on_exchange
  on_exchange-Handles attempt (err e) s =
      on_transport_error-Ends env c call Opened Moved moves attempt e s
  on_exchange-Handles attempt (ok resp) s = on_response-Answers attempt resp s

-- The same for a relation that does not tell whether a body is open.
module _ {S V : Type 0} (env : Env S) (c : Client S) (call : Call V) (Moved : ℕ → S → S → Type 0)
    (moves : IsMoved env c.retry (λ resp. Moved) Moved) where
  Handles-Ends :
      (attempt : ℕ) (outcome : Result Response) (s : S) (res : Round V × S)
      → Handles c call (λ resp. Moved) Moved attempt outcome s res
      → Ends c call Moved attempt outcome s res
  Handles-Ends attempt (err e) s res h = h
  Handles-Ends attempt (ok resp) s res h = h

  pub on_exchange-Ends :
      (attempt : ℕ) (outcome : Result Response) (s : S)
      → Ends c call Moved attempt outcome s (on_exchange env c call attempt outcome s)
  on_exchange-Ends attempt outcome s =
      Handles-Ends attempt outcome s (on_exchange env c call attempt outcome s)
        (on_exchange-Handles env c call (λ resp. Moved) Moved moves attempt outcome s)

-- A handler leaves what timers and random numbers leave.
pub on_exchange-quiet :
    {S V L : Type 0} (env : Env S) (c : Client S) (call : Call V) (log : S → L)
    → IsQuiet env log
    → (attempt : ℕ) (outcome : Result Response) (s : S)
    → (log (on_exchange env c call attempt outcome s).1 ≡ log s)
      × After c call attempt outcome (on_exchange env c call attempt outcome s).0
on_exchange-quiet env c call log quiet =
    on_exchange-Ends env c call (Same log) (Same-IsMoved env c.retry log quiet)
