-- ===== src/Client/Recording.antt =====
-- A world that also keeps the requests that were sent, with their outcomes, oldest first. Everything
-- else in it is the world that it is built on.
use walletd_go.Base.{List, [], ◌∷◌, ◌++◌}
use walletd_go.Errors.Result.{Result}
use walletd_go.Http.Message.{Request, Response}
use walletd_go.Client.Act.{Act}
use walletd_go.Client.World.{
  Env, HttpClient, Redirects, Credential, api_key, user_token, credential_func,
}
use walletd_go.Client.New.{Client}

pub record Exchange : Type 0 where
  pub request : Request
  pub outcome : Result Response

abbrev pub Recorded : Type 0 → Type 0
Recorded W = W × List Exchange

module _ {W : Type 0} where
  -- An action that sends nothing.
  abbrev pub quiet : {A : Type 0} → Act W A → Act (Recorded W) A
  quiet m s = ((m s.0).0, ((m s.0).1, s.1))

  -- An exchange that is recorded.
  abbrev recorded_exchange :
      (Redirects → Request → Act W (Result Response))
      → Redirects
      → Request
      → Act (Recorded W) (Result Response)
  recorded_exchange exchange policy req s = (
    (exchange policy req s.0).0,
    (
      (exchange policy req s.0).1,
      s.1 ++ record { request = req; outcome = (exchange policy req s.0).0 } ∷ [],
    ),
  )

  abbrev pub recording_http : HttpClient W → HttpClient (Recorded W)
  recording_http h = record {
    exchange = recorded_exchange h.exchange;
    check_redirect = h.check_redirect;
  }

  abbrev pub recording_env : Env W → Env (Recorded W)
  recording_env env = record {
    ctx_err = λ s. env.ctx_err s.0;
    sleep = λ d. quiet (env.sleep d);
    rand = λ n. quiet (env.rand n);
    now = λ s. env.now s.0;
    parse_time = env.parse_time;
    new_request_err = env.new_request_err;
    parse_url = env.parse_url;
    url_string = env.url_string;
    problem_json = env.problem_json;
    discard = λ n resp s. (env.discard n resp s.0, s.1);
    close = λ resp s. (env.close resp s.0, s.1);
    default_transport = env.default_transport;
    transported = λ timeout t. recorded_exchange (env.transported timeout t);
  }

  abbrev pub recording_cred : Credential W → Credential (Recorded W)
  recording_cred (api_key key) = api_key key
  recording_cred (user_token t) = user_token t
  recording_cred (credential_func f) = credential_func (quiet f)

  abbrev pub recording : Client W → Client (Recorded W)
  recording c = record {
    base = c.base;
    http = recording_http c.http;
    cred = recording_cred c.cred;
    user_agent = c.user_agent;
    retry = c.retry;
  }
