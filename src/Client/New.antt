-- ===== src/Client/New.antt =====
-- New of client.go and its options.
use walletd_go.Base.{
  ◌||◌, Option, none, some, List, [], ◌∷◌, ◌++◌, if◌then◌else◌, pos, ltb_ℤ, Bytes, codes, beq,
}
use walletd_go.Errors.Sentinel.{Sentinel}
use walletd_go.Errors.Chain.{Err}
use walletd_go.Errors.Result.{Result, ok, err}
use walletd_go.Text.Space.{trim_slashes}
use walletd_go.Client.World.{
  Env, HttpClient, Credential, Url, Transport, follow_default, use_last_response,
}
use walletd_go.Client.Policy.{RetryPolicy, default_retry_policy}

-- Version
abbrev pub version : Bytes
version = codes "0.1.2"

pub record Client (W : Type 0) : Type 0 where
  pub base : Url
  pub http : HttpClient W
  pub cred : Credential W
  pub user_agent : Bytes
  pub retry : RetryPolicy

-- Option, by the function that makes it. A nil HTTP client is `none`.
pub data ClientOption (W : Type 0) : Type 0 where
  with_http_client : Option (HttpClient W) → ClientOption W
  with_retry_policy : RetryPolicy → ClientOption W
  without_retries : ClientOption W
  with_user_agent : Bytes → ClientOption W

-- The SDK's own name and version.
abbrev pub sdk_agent : Bytes
sdk_agent = codes "walletd-go/" ++ version

-- WithRetryPolicy: at least one attempt.
abbrev at_least_one : RetryPolicy → RetryPolicy
at_least_one p = if ltb_ℤ p.max_attempts (pos 1) then record p { max_attempts = pos 1 } else p

-- The limits on the connections of the transport.
abbrev pub pooled : Transport → Transport
pooled t = record t {
  max_idle_conns = 256;
  max_idle_conns_per_host = 256;
  max_conns_per_host = 256;
}

module _ {W : Type 0} where
  -- What an option does to the client.
  unfoldable pub apply_option : Client W → ClientOption W → Client W
  apply_option c (with_http_client none) = c
  apply_option c (with_http_client (some h)) = record c { http = h }
  apply_option c (with_retry_policy p) = record c { retry = at_least_one p }
  apply_option c without_retries = record c { retry = record c.retry { max_attempts = pos 1 } }
  apply_option c (with_user_agent ua) =
      if beq ua [] then c else record c { user_agent = ua ++ codes " " ++ sdk_agent }

  unfoldable pub apply_options : Client W → List (ClientOption W) → Client W
  unfolding apply_option
  apply_options c [] = c
  apply_options c (opt ∷ opts) = apply_options (apply_option c opt) opts

  -- The client before the options.
  abbrev pub initial_client : Env W → Url → Credential W → Client W
  initial_client env u cred = record {
    base = u;
    http = record {
      exchange = env.transported (pos 30_000_000_000) (pooled env.default_transport);
      check_redirect = follow_default;
    };
    cred = cred;
    user_agent = sdk_agent;
    retry = default_retry_policy;
  }

  -- The copy of the HTTP client that answers a redirect as it is.
  abbrev pub refuse_redirects : Client W → Client W
  refuse_redirects c = record c { http = record c.http { check_redirect = use_last_response } }

  -- New, once the base URL is parsed.
  unfoldable pub new_at :
      Env W → Credential W → List (ClientOption W) → Result Url → Result (Client W)
  new_at env cred opts (err e) = err (Err.wrap e)
  new_at env cred opts (ok u) =
      if beq u.scheme [] || beq u.host []
      then err (Err.wrap (Err.sentinel Sentinel.invalid_request))
      else ok (refuse_redirects (apply_options (initial_client env u cred) opts))

  -- New; a nil credential is `none`.
  unfoldable pub new :
      Env W → Bytes → Option (Credential W) → List (ClientOption W) → Result (Client W)
  unfolding new_at
  new env base_url none opts = err (Err.wrap (Err.sentinel Sentinel.invalid_request))
  new env base_url (some cred) opts = new_at env cred opts (env.parse_url (trim_slashes base_url))
