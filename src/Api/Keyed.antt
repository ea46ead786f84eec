-- ===== src/Api/Keyed.antt =====
-- The keyed methods: nothing is sent under a bad key, and one key goes with every attempt.
use walletd_go.Base.{
  ◌≤◌, max, false, Option, none, some, List, [], ◌∷◌, ◌++◌, length, All, if◌then◌else◌, pos_part,
  Bytes, beq, ◌≡◌, refl, ap, ◌∙◌, ◌⊎◌, inl, inr,
}
use walletd_go.Errors.Chain.{Err}
use walletd_go.Errors.Result.{Result, err}
use walletd_go.Http.Message.{post}
use walletd_go.Idempotency.{IdempotencyKey, validate, validate-nonempty}
use walletd_go.Client.World.{Env}
use walletd_go.Client.New.{Client}
use walletd_go.Client.Do.{Call, request, target}
use walletd_go.Text.Space.{trim_slashes}
use walletd_go.Api.Values.{encode}
use walletd_go.Client.Recording.{Exchange, Recorded, recording_env, recording}
use walletd_go.Client.Trace.{IsOfCall}
use walletd_go.Client.Entry.{body_of}
use walletd_go.Client.Sends.{do_call-sent, do_keyed-validate}
use walletd_go.Api.Calls.{Json, answered, call_of, keyed}

-- A POST to a target that carries a key and a body.
abbrev pub Carries : Bytes → IdempotencyKey → Option Bytes → Exchange → Type 0
Carries address key body x =
    (x.request.method ≡ post)
    × (x.request.target ≡ address)
    × (x.request.idempotency_key ≡ some key)
    × (x.request.payload ≡ body)

-- A path at the base URL of a client.
abbrev pub at_base : {W : Type 0} → Env W → Client W → Bytes → Bytes
at_base env client path =
    env.url_string (record client.base { path = trim_slashes client.base.path ++ path })

module _ {W V : Type 0} (world : Env W) (client : Client W) (path : Bytes) (key : IdempotencyKey)
    (input : Result Bytes) (json : Json V) where
  abbrev call : Call V
  call = call_of post path key [] (some input) json

  IsOfCall-Carries :
      (sent : List Exchange)
      → beq key [] ≡ false
      → All (IsOfCall world client call (body_of (some input))) sent
      → All (Carries (at_base world client path) key (body_of (some input))) sent
  unfolding request target encode beq
  IsOfCall-Carries [] some_key h = tt
  IsOfCall-Carries (x ∷ xs) some_key ((t, e), h) = (
    (
      ap (λ r. r.method) e,
      ap (λ r. r.target) e,
      ap (λ r. r.idempotency_key) e ∙ ap (λ b. if b then none else some key) some_key,
      ap (λ r. r.payload) e,
    ),
    IsOfCall-Carries xs some_key h,
  )

-- A money-moving method whose key Validate accepts sends at most MaxAttempts requests, and one if that is
-- not positive, each of them a POST to its path with the same body under that same key. Under any other key it sends
-- nothing, changes nothing and fails with the error of Validate.
pub keyed-Carries :
    {W V : Type 0} (world : Env W) (client : Client W) (path : Bytes) (key : IdempotencyKey)
    (input : Result Bytes) (json : Json V) (s : Recorded W)
    → ((e : Err) × (validate key ≡ some e)
        × (keyed (recording_env world) (recording client) path key input json s ≡ (err e, s)))
      ⊎ ((validate key ≡ none)
          × (sent : List Exchange) × ((keyed
                (recording_env world)
                (recording client)
                path
                key
                input
                json
                s).1.1
              ≡ s.1 ++ sent)
          × (length sent ≤ max 1 (pos_part client.retry.max_attempts))
          × All (Carries (at_base world client path) key (body_of (some input))) sent)
unfolding keyed answered
keyed-Carries world client path key input json s =
    elim (do_keyed-validate world client (call_of post path key [] (some input) json) s) [
      | inl (e, refused, unsent) ↦ inl (e, refused, rw (unsent, keyed) refl)
      | inr (valid, same) ↦
          let (sent, logged, bound, all) =
            do_call-sent world client (call_of post path key [] (some input) json) s in
          inr (
            valid,
            sent,
            ap (λ r. r.1.1) same ∙ logged,
            bound,
            IsOfCall-Carries world client path key input json sent (validate-nonempty key valid)
                all,
          )
    ]
