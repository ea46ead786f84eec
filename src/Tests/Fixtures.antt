-- ===== src/Tests/Fixtures.antt =====
-- A world with one answer for every request, and a client in it.
use walletd_go.Base.{
  ℕ, ◌+◌, ◌%◌, ◌∷◌, Bool, true, not, Option, none, some, [], ◌==◌, ℤ, pos, Bytes, codes,
}
use walletd_go.Errors.Chain.{Err}
use walletd_go.Errors.Result.{Result, ok, err}
use walletd_go.Http.Message.{get, post, Response}
use walletd_go.Uuid.{Uuid}
use walletd_go.Api.Query.{OfferingFilter}
use walletd_go.Client.Act.{Act}
use walletd_go.Client.World.{Env, HttpClient, Url, Transport, use_last_response, api_key}
use walletd_go.Client.Policy.{default_retry_policy}
use walletd_go.Client.New.{Client, sdk_agent}
use walletd_go.Client.Do.{Call}

abbrev pub response : ℕ → Bytes → Response
response status body = record {
  status = status;
  status_line = "a status line";
  retry_after = [];
  body = body;
  body_error = none;
}

abbrev pub base_url : Url
base_url = record {
  scheme = codes "https";
  host = codes "api.walletd.io";
  path = [];
  raw_query = [];
  rest = 0;
}

abbrev pub transport : Transport
transport = record {
  max_idle_conns = 100;
  max_idle_conns_per_host = 2;
  max_conns_per_host = 0;
  rest = 0;
}

abbrev pub answering : Response → HttpClient Unit
answering resp = record {
  exchange = λ policy req w. (ok resp, w);
  check_redirect = use_last_response;
}

-- A world in which everything but the timers and the server is still, and a client in it.
abbrev pub world_of : {W : Type 0} → (ℤ → Act W (Option Err)) → HttpClient W → Env W
world_of sleep http = record {
  ctx_err = λ w. none;
  sleep = sleep;
  rand = λ n w. (0, w);
  now = λ w. pos 0;
  parse_time = λ v. none;
  new_request_err = λ target. none;
  parse_url = λ s. ok base_url;
  url_string = λ u. u.path;
  problem_json = λ body. none;
  discard = λ n resp w. w;
  close = λ resp w. w;
  default_transport = transport;
  transported = λ timeout t. http.exchange;
}

abbrev pub client_of : {W : Type 0} → HttpClient W → Client W
client_of http = record {
  base = base_url;
  http = http;
  cred = api_key (codes "key");
  user_agent = sdk_agent;
  retry = default_retry_policy;
}

abbrev pub world : Response → Env Unit
world resp = world_of (λ d w. (none, w)) (answering resp)

abbrev pub client : Response → Client Unit
client resp = client_of (answering resp)

-- A POST without a key, and a GET; both take the body as it is.
abbrev pub creation : Call Bytes
creation = record {
  method = post;
  path = codes "/v1/users";
  idem = [];
  query = [];
  input = some (ok (codes "{}"));
  output = some (λ body. ok body);
}

abbrev pub reading : Call Bytes
reading = record {
  method = get;
  path = codes "/v1/me";
  idem = [];
  query = [];
  input = none;
  output = some (λ body. ok body);
}

-- Every answer but a 429 comes from a server that performed the call.
abbrev pub performed : Result Response → Bool
performed (ok resp) = not (resp.status == 429)
performed (err e) = true

-- A filter of a catalog, and identifiers that print as one letter.
abbrev pub filter : OfferingFilter
filter = record { status = codes "active"; category_id = some 4; query = []; low_stock = true }

abbrev pub letter : Uuid → Bytes
letter id = (97 + id % 26) ∷ []
