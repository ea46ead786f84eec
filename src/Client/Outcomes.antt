-- ===== src/Client/Outcomes.antt =====
-- What an exchange says of how the loop of do goes on: after which outcomes a call may be sent again, and
-- which results they explain.
use walletd_go.Base.{ℕ, ◌≤◌, ◌<◌, true, ◌||◌, Option, none, some, pos, ◌<ℤ◌, Bytes, ◌≡◌, ◌⊎◌}
use walletd_go.Errors.Chain.{Err, StdError, is_std}
use walletd_go.Errors.Result.{Result, ok, err}
use walletd_go.Http.Message.{Response}
use walletd_go.Client.New.{Client}
use walletd_go.Client.Do.{Call, Round, returns, continues, replay_safe}

-- The statuses, besides 429, after which a replay-safe call is sent again: those of a failing server.
abbrev pub IsFailing : ℕ → Type 0
IsFailing status = (status ≡ 500) ⊎ (status ≡ 502) ⊎ (status ≡ 503) ⊎ (status ≡ 504)

-- A success whose body was to be decoded and broke off: it could not be read to its end, or it ends within
-- the value, as an error of the decoder says.
abbrev pub BrokeOff : {V : Type 0} → Call V → Response → Type 0
BrokeOff {V} call resp =
    (200 ≤ resp.status)
    × (resp.status < 300)
    × (decode : Bytes → Result V) × (call.output ≡ some decode)
    × (((e : Err) × (resp.body_error ≡ some e))
        ⊎ ((resp.body_error ≡ none)
            × (e : Err) × (decode resp.body ≡ err e)
            × ((is_std e StdError.eof || is_std e StdError.unexpected_eof) ≡ true)))

-- The outcomes after which a call may be sent again.
abbrev pub AllowsRetry : {V : Type 0} → Call V → Result Response → Type 0
AllowsRetry call (err e) = replay_safe call ≡ true
AllowsRetry call (ok resp) =
    (resp.status ≡ 429) ⊎ ((replay_safe call ≡ true) × (IsFailing resp.status ⊎ BrokeOff call resp))

-- The outcomes that explain a returned value: a complete 2xx answer that decodes to it, and any 2xx
-- answer where nothing is decoded.
abbrev pub Explains : {V : Type 0} → Call V → Result Response → Result (Option V) → Type 0
Explains call outcome (err e) = Unit
Explains call outcome (ok none) =
    (resp : Response) × (outcome ≡ ok resp)
    × (200 ≤ resp.status)
    × (resp.status < 300)
    × (call.output ≡ none)
Explains {V} call outcome (ok (some v)) =
    (resp : Response) × (decode : Bytes → Result V) × (outcome ≡ ok resp)
    × (200 ≤ resp.status)
    × (resp.status < 300)
    × (resp.body_error ≡ none)
    × (call.output ≡ some decode)
    × (decode resp.body ≡ ok v)

-- How a round ends, after an exchange with this outcome.
abbrev pub After : {S V : Type 0} → Client S → Call V → ℕ → Result Response → Round V → Type 0
After c call attempt outcome (returns r) = Explains call outcome r
After c call attempt outcome continues =
    (pos attempt <ℤ c.retry.max_attempts) × AllowsRetry call outcome
