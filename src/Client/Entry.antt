-- ===== src/Client/Entry.antt =====
-- do of client.go before its loop: a call is sent with its body, or refused with nothing changed.
use walletd_go.Base.{
  Option, none, some, [], Bytes, beq, beq_refl, true-ne-false, ◌≡◌, ◌≢◌, refl, sym, ap, ◌∙◌, ◌⊎◌,
  inl, inr, Bool-cases, Option-cases,
}
use walletd_go.Errors.Chain.{Err}
use walletd_go.Errors.Result.{Result, ok, err}
use walletd_go.Idempotency.{validate}
use walletd_go.Client.World.{Env}
use walletd_go.Client.New.{Client}
use walletd_go.Client.Do.{Call, send, check_and_send, do_marshalled, do_call}

-- The body that is sent for an input: none for a nil one, and none, since nothing is sent, for one that
-- `json.Marshal` refuses.
unfoldable pub body_of : Option (Result Bytes) → Option Bytes
body_of none = none
body_of (some (ok payload)) = some payload
body_of (some (err e)) = none

module _ {W V : Type 0} (env : Env W) (c : Client W) (call : Call V) where
  check_and_send-cases :
      (payload : Option Bytes) (w : W)
      → (check_and_send env c call payload w ≡ send env c call payload w)
        ⊎ ((e : Err) × (check_and_send env c call payload w ≡ (err e, w)))
  unfolding check_and_send
  check_and_send-cases payload w = elim (Bool-cases (beq call.idem [])) [
    | inl empty ↦ inl (rw (empty, check_and_send) refl)
    | inr keyed ↦ elim (Option-cases (validate call.idem)) [
      | inl valid ↦ inl (rw (keyed, valid, check_and_send) refl)
      | inr (e, invalid) ↦ inr (e, rw (keyed, invalid, check_and_send) refl)
    ]
  ]

  do_marshalled-cases :
      (input : Option (Result Bytes)) (w : W)
      → (do_marshalled env c call input w ≡ send env c call (body_of input) w)
        ⊎ ((e : Err) × (do_marshalled env c call input w ≡ (err e, w)))
  unfolding do_marshalled body_of
  do_marshalled-cases none w = check_and_send-cases none w
  do_marshalled-cases (some (ok payload)) w = check_and_send-cases (some payload) w
  do_marshalled-cases (some (err e)) w = inr (_, refl)

  -- A call is sent with its body, or it fails before anything happened.
  pub do_call-cases :
      (w : W)
      → (do_call env c call w ≡ send env c call (body_of call.input) w)
        ⊎ ((e : Err) × (do_call env c call w ≡ (err e, w)))
  unfolding do_call
  do_call-cases w = do_marshalled-cases call.input w

  check_and_send-sends :
      (payload : Option Bytes) (w : W)
      → (call.idem ≡ []) ⊎ (validate call.idem ≡ none)
      → check_and_send env c call payload w ≡ send env c call payload w
  unfolding check_and_send
  check_and_send-sends payload w valid = elim (Bool-cases (beq call.idem [])) [
    | inl e ↦ rw (e, check_and_send) refl
    | inr e ↦ elim valid [
      | inl empty ↦ absurd (true-ne-false (sym (ap (λ k. beq k []) empty ∙ beq_refl []) ∙ e))
      | inr fine ↦ rw (e, fine, check_and_send) refl
    ]
  ]

  do_marshalled-sends :
      (input : Option (Result Bytes)) (w : W)
      → ((e : Err) → input ≢ some (err e))
      → (call.idem ≡ []) ⊎ (validate call.idem ≡ none)
      → do_marshalled env c call input w ≡ send env c call (body_of input) w
  unfolding do_marshalled body_of
  do_marshalled-sends none w encodes = check_and_send-sends none w
  do_marshalled-sends (some (ok payload)) w encodes = check_and_send-sends (some payload) w
  do_marshalled-sends (some (err e)) w encodes = absurd (encodes e refl)

  -- A call that encodes, with a valid key or none, is sent.
  pub do_call-sends :
      (w : W)
      → ((e : Err) → call.input ≢ some (err e))
      → (call.idem ≡ []) ⊎ (validate call.idem ≡ none)
      → do_call env c call w ≡ send env c call (body_of call.input) w
  unfolding do_call
  do_call-sends w = do_marshalled-sends call.input w
