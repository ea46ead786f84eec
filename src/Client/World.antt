-- ===== src/Client/World.antt =====
-- What the client uses and does not implement, and its own state.
use walletd_go.Base.{ℕ, ℤ, Bytes, Option, [], beq, if◌then◌else◌}
use walletd_go.Errors.Sentinel.{Sentinel}
use walletd_go.Errors.Chain.{Err}
use walletd_go.Errors.Problem.{Problem}
use walletd_go.Errors.Result.{Result, ok, err}
use walletd_go.Http.Message.{Request, Response}
use walletd_go.Client.Act.{Act}

-- `CheckRedirect` of an `http.Client`: no function, the one of New, or another one, by a number.
pub data Redirects : Type 0 where
  follow_default : Redirects
  use_last_response : Redirects
  custom : ℕ → Redirects

-- An `http.Client`: how its transport answers under a redirect policy, and the policy it has.
pub record HttpClient (W : Type 0) : Type 0 where
  pub exchange : Redirects → Request → Act W (Result Response)
  pub check_redirect : Redirects

-- `http.Transport`, by the limits that New sets; `rest` stands for the others.
pub record Transport : Type 0 where
  pub max_idle_conns : ℕ
  pub max_idle_conns_per_host : ℕ
  pub max_conns_per_host : ℕ
  pub rest : ℕ

-- `url.URL`, by the parts that the client reads or writes; `rest` stands for the others.
pub record Url : Type 0 where
  pub scheme : Bytes
  pub host : Bytes
  pub path : Bytes
  pub raw_query : Bytes
  pub rest : ℕ

-- The context, the clock, the random source, and the parts of the standard library that the client
-- only calls.
pub record Env (W : Type 0) : Type 0 where
  -- `ctx.Err()`
  pub ctx_err : W → Option Err
  -- The select on a timer and `ctx.Done()`: `none` if the timer fires, or the context's error.
  pub sleep : ℤ → Act W (Option Err)
  -- `rand.Int64N(n)`
  pub rand : ℕ → Act W ℕ
  -- `time.Now()` in nanoseconds
  pub now : W → ℤ
  -- `http.ParseTime`
  pub parse_time : Bytes → Option ℤ
  -- The error of `http.NewRequestWithContext` for a target, if it has one.
  pub new_request_err : Bytes → Option Err
  -- `url.Parse`, and `u.String()`
  pub parse_url : Bytes → Result Url
  pub url_string : Url → Bytes
  -- The JSON decoder on a `Problem`.
  pub problem_json : Bytes → Option Problem
  -- `io.Copy(io.Discard, io.LimitReader(resp.Body, n))`, and `resp.Body.Close()`
  pub discard : ℕ → Response → W → W
  pub close : Response → W → W
  -- A clone of `http.DefaultTransport`, and how an `http.Client` with a timeout and a transport answers.
  pub default_transport : Transport
  pub transported : ℤ → Transport → Redirects → Request → Act W (Result Response)

-- Credential: an API key, a user token, or another source of tokens.
pub data Credential (W : Type 0) : Type 0 where
  api_key : Bytes → Credential W
  user_token : Bytes → Credential W
  credential_func : Act W (Result Bytes) → Credential W

-- A fixed token, refused if it is empty.
fixed_token : Bytes → Result Bytes
fixed_token t = if beq t [] then err (Err.wrap (Err.sentinel Sentinel.invalid_request)) else ok t

-- Token of Credential
unfoldable pub token : {W : Type 0} → Credential W → Act W (Result Bytes)
unfolding fixed_token
token (api_key key) w = (fixed_token key, w)
token (user_token t) w = (fixed_token t, w)
token (credential_func f) w = f w

-- drainClose: at most 2 ^ 20 bytes are read before the body is closed.
unfoldable pub drain_close : {W : Type 0} → Env W → Response → W → W
drain_close env resp w = env.close resp (env.discard 1_048_576 resp w)
