-- ===== src/Client/Do.antt =====
-- do and doKeyed of client.go: one call of the API, sent until it is answered.
use walletd_go.Base.{
  ℕ, zero, suc, ◌+◌, Bool, true, false, not, ◌&&◌, ◌||◌, Option, none, some, [], ◌++◌, ltb, leb,
  if◌then◌else◌, ℤ, pos, ltb_ℤ, pos_part, Bytes, codes, beq,
}
use walletd_go.Errors.Sentinel.{Sentinel}
use walletd_go.Errors.Chain.{Err, StdError, is_std}
use walletd_go.Errors.Decode.{decode_problem}
use walletd_go.Errors.Result.{Result, ok, err}
use walletd_go.Http.Message.{Method, Request, Response}
use walletd_go.Idempotency.{IdempotencyKey, validate}
use walletd_go.Text.Space.{trim_slashes}
use walletd_go.Client.Act.{Act, return, ◌>>=◌}
use walletd_go.Client.World.{Env, token, drain_close}
use walletd_go.Client.Policy.{retryable, backoff, wait}
use walletd_go.Client.RetryAfter.{parse_retry_after}
use walletd_go.Client.New.{Client}

-- The arguments of `do`. `input` is what `json.Marshal` makes of `in`, `none` for a nil `in`;
-- `output` decodes a body into the type of `out`, `none` for a nil `out`; `query` is encoded, and
-- empty if there is none.
pub record Call (V : Type 0) : Type 0 where
  pub method : Method
  pub path : Bytes
  pub idem : IdempotencyKey
  pub query : Bytes
  pub input : Option (Result Bytes)
  pub output : Option (Bytes → Result V)

-- What one round of the loop comes to: a return, or `continue`.
pub data Round (V : Type 0) : Type 0 where
  returns : Result (Option V) → Round V
  continues : Round V

-- `method == http.MethodGet || method == http.MethodHead || idem != ""`
unfoldable pub is_read : Method → Bool
is_read Method.get = true
is_read Method.head = true
is_read Method.post = false

unfoldable pub replay_safe : {V : Type 0} → Call V → Bool
unfolding is_read
replay_safe call = is_read call.method || not (beq call.idem [])

abbrev pub accept_header : Bytes
accept_header = codes "application/json, application/problem+json"

-- `fmt.Errorf("%w: …: %w", ErrTransport, …, err)`
abbrev pub transport_error : Err → Err
transport_error e = Err.wrap2 (Err.sentinel Sentinel.transport) e

module _ {W V : Type 0} (env : Env W) (c : Client W) (call : Call V) where
  -- The URL of the call.
  unfoldable pub target : Bytes
  target = env.url_string (record c.base {
    path = trim_slashes c.base.path ++ call.path;
    raw_query = if beq call.query [] then c.base.raw_query else call.query;
  })

  -- The request of one attempt: all but the token is the same in every one.
  unfoldable pub request : Option Bytes → Bytes → Request
  unfolding target
  request payload authorization = record {
    method = call.method;
    target = target;
    payload = payload;
    accept = accept_header;
    user_agent = c.user_agent;
    idempotency_key = if beq call.idem [] then none else some call.idem;
    authorization = codes "Bearer " ++ authorization;
  }

  -- After a wait: its error is returned, or the loop goes on.
  unfoldable pub after_wait : Option Err → Round V
  after_wait (some e) = returns (err e)
  after_wait none = continues

  unfoldable pub wait_and_continue : ℤ → Act W (Round V)
  unfolding after_wait
  wait_and_continue d = do e ← wait env d; return (after_wait e)

  -- A failure that may be repeated: after a backoff if the call is replay-safe and attempts are left.
  unfoldable pub retry_or : ℕ → Err → Act W (Round V)
  unfolding wait_and_continue
  retry_or attempt e w =
      if replay_safe call && ltb_ℤ (pos attempt) c.retry.max_attempts
      then (do d ← backoff env c.retry attempt; wait_and_continue d) w
      else (returns (err e), w)

  -- The error of the context, if it is over, before anything else.
  unfoldable pub unless_over : (Err → Err) → Act W (Round V) → Act W (Round V)
  unless_over wrapped rest w = elim (env.ctx_err w) [
    | some e ↦ (returns (err (wrapped e)), w)
    | none ↦ rest w
  ]

  -- `c.http.Do` failed.
  unfoldable pub on_transport_error : ℕ → Err → Act W (Round V)
  unfolding unless_over retry_or
  on_transport_error attempt e = unless_over Err.wrap (retry_or attempt (transport_error e))

  -- The delay before a retry of an error response: the server's, if it named one.
  unfoldable pub on_delay : Err → ℤ → Option ℤ → Act W (Round V)
  unfolding wait_and_continue
  on_delay refusal delay none w = wait_and_continue delay w
  on_delay refusal delay (some retry_after) w =
      if ltb_ℤ c.retry.max_delay retry_after
      then (returns (err refusal), w)
      else wait_and_continue retry_after w

  -- An answer of 400 to 599: its body is read, drained and closed before anything else.
  unfoldable pub on_error_status : ℕ → Response → Act W (Round V)
  unfolding on_delay drain_close
  on_error_status attempt resp w =
      let refusal : Err = Err.problem (decode_problem env.problem_json resp) in
      let retry_after = parse_retry_after env.parse_time (env.now w) resp.retry_after in
      let w' = drain_close env resp w in
      if not (retryable c.retry resp.status (replay_safe call) attempt)
      then (returns (err refusal), w')
      else (do delay ← backoff env c.retry attempt; on_delay refusal delay retry_after) w'

  -- A body that could not be read to its end, or ends within the value.
  unfoldable pub on_broken_body : ℕ → Err → Act W (Round V)
  unfolding unless_over retry_or
  on_broken_body attempt e = unless_over (λ x. x) (retry_or attempt (transport_error e))

  -- The decoded value, or the error of the decoder.
  unfoldable pub on_decoded : ℕ → Result V → Act W (Round V)
  unfolding on_broken_body
  on_decoded attempt (ok v) w = (returns (ok (some v)), w)
  on_decoded attempt (err e) w =
      if is_std e StdError.eof || is_std e StdError.unexpected_eof
      then on_broken_body attempt e w
      else (returns (err (Err.wrap e)), w)

  -- An answer of 200 to 299.
  unfoldable pub on_body : ℕ → (Bytes → Result V) → Bytes → Option Err → Act W (Round V)
  unfolding on_decoded on_broken_body
  on_body attempt decode body (some e) = on_broken_body attempt e
  on_body attempt decode body none = on_decoded attempt (decode body)

  unfoldable pub on_success : ℕ → Option (Bytes → Result V) → Response → Act W (Round V)
  unfolding on_body drain_close
  on_success attempt none resp w = (returns (ok none), drain_close env resp w)
  on_success attempt (some decode) resp w =
      on_body attempt decode resp.body resp.body_error (env.close resp w)

  unfoldable pub on_response : ℕ → Response → Act W (Round V)
  unfolding on_error_status on_success drain_close
  on_response attempt resp w =
      if leb 400 resp.status && ltb resp.status 600
      then on_error_status attempt resp w
      else if ltb resp.status 200 || leb 300 resp.status
      then (
        returns (err (Err.wrap (Err.sentinel Sentinel.unexpected_status))),
        drain_close env resp w,
      )
      else on_success attempt call.output resp w

  -- What `c.http.Do` answered.
  unfoldable pub on_exchange : ℕ → Result Response → Act W (Round V)
  unfolding on_transport_error on_response
  on_exchange attempt (err e) = on_transport_error attempt e
  on_exchange attempt (ok resp) = on_response attempt resp

  -- The part of a round behind the token.
  unfoldable pub with_token : ℕ → Option Bytes → Result Bytes → Act W (Round V)
  unfolding on_exchange request
  with_token attempt payload (err e) w = (returns (err (Err.wrap e)), w)
  with_token attempt payload (ok t) w =
      (do
        outcome ← c.http.exchange c.http.check_redirect (request payload t)
        on_exchange attempt outcome)
        w

  -- One round of the loop.
  unfoldable pub round : Option Bytes → ℕ → Act W (Round V)
  unfolding with_token
  round payload attempt w = elim (env.new_request_err target) [
    | some e ↦ (returns (err (Err.wrap e)), w)
    | none ↦ (do t ← token c.cred; with_token attempt payload t) w
  ]

  -- Where a round leads: `none` if the fuel is spent.
  unfoldable pub turn :
      Act W (Option (Result (Option V))) → Round V → Act W (Option (Result (Option V)))
  turn rest (returns r) w = (some r, w)
  turn rest continues w = rest w

  -- `for attempt := 1; ; attempt++`
  unfoldable pub loop : ℕ → Option Bytes → ℕ → Act W (Option (Result (Option V)))
  unfolding turn round
  loop zero payload attempt w = (none, w)
  loop (suc fuel) payload attempt w =
      turn (loop fuel payload (attempt + 1)) (round payload attempt w).0 (round payload attempt w).1

  -- The result of the loop; the last clause is for a loop whose fuel was spent.
  unfoldable pub finished : Option (Result (Option V)) × W → W → Result (Option V) × W
  finished (some r, w') w = (r, w')
  finished (none, w') w = (err Err.plain, w)

  -- The loop from its first attempt, with fuel for MaxAttempts rounds and one more.
  unfoldable pub send : Option Bytes → Act W (Result (Option V))
  unfolding loop finished
  send payload w = finished (loop (suc (pos_part c.retry.max_attempts)) payload 1 w) w

  -- The check of a key that is not empty, before anything is sent.
  unfoldable pub check_and_send : Option Bytes → Act W (Result (Option V))
  unfolding send
  check_and_send payload w =
      if beq call.idem []
      then send payload w
      else elim (validate call.idem) [ some e ↦ (err e, w) | none ↦ send payload w ]

  -- (c *Client) do, from the marshalled input
  unfoldable pub do_marshalled : Option (Result Bytes) → Act W (Result (Option V))
  unfolding check_and_send
  do_marshalled none w = check_and_send none w
  do_marshalled (some (ok payload)) w = check_and_send (some payload) w
  do_marshalled (some (err e)) w = (err (Err.wrap2 (Err.sentinel Sentinel.invalid_request) e), w)

  -- (c *Client) do
  unfoldable pub do_call : Act W (Result (Option V))
  unfolding do_marshalled
  do_call = do_marshalled call.input

  -- (c *Client) doKeyed
  unfoldable pub do_keyed : Act W (Result (Option V))
  unfolding do_call
  do_keyed w = elim (validate call.idem) [ some e ↦ (err e, w) | none ↦ do_call w ]
