-- ===== src/Tests/Recovering.antt =====
-- A server that fails twice, once with no answer and once with 503, and then answers; the state of the world counts the failures to come.
use walletd_go.Base.{
  ℕ, zero, suc, ◌+◌, ◌<◌, true, none, some, [], pos, codes, beq, ◌≡◌, refl, inl, inr, arith,
}
use walletd_go.Errors.Chain.{Err}
use walletd_go.Errors.Result.{Result, ok, err}
use walletd_go.Http.Message.{Response}
use walletd_go.Client.World.{Env, HttpClient, use_last_response, api_key, token}
use walletd_go.Client.Policy.{default_retry_policy}
use walletd_go.Client.New.{Client, sdk_agent}
use walletd_go.Client.Do.{do_call, replay_safe}
use walletd_go.Client.Flaky.{IsTrouble, IsFlaky}
use walletd_go.Client.Recovers.{do_call-recovers}
use walletd_go.Tests.Fixtures.{transport, response, base_url, reading}

-- One failure less, or the answer.
abbrev troubled : ℕ → Result Response × ℕ
troubled zero = (ok (response 200 (codes "{}")), 0)
troubled (suc zero) = (ok (response 503 []), 0)
troubled (suc (suc n)) = (err Err.plain, suc n)

abbrev flaky_http : HttpClient ℕ
flaky_http = record { exchange = λ policy req n. troubled n; check_redirect = use_last_response }

abbrev flaky_world : Env ℕ
flaky_world = record {
  ctx_err = λ n. none;
  sleep = λ d n. (none, n);
  rand = λ m n. (0, n);
  now = λ n. pos 0;
  parse_time = λ v. none;
  new_request_err = λ target. none;
  parse_url = λ s. ok base_url;
  url_string = λ u. u.path;
  problem_json = λ body. none;
  discard = λ n resp w. w;
  close = λ resp w. w;
  default_transport = transport;
  transported = λ timeout t. flaky_http.exchange;
}

abbrev flaky_client : Client ℕ
flaky_client = record {
  base = base_url;
  http = flaky_http;
  cred = api_key (codes "key");
  user_agent = sdk_agent;
  retry = default_retry_policy;
}

troubled-fails : (n : ℕ) → 0 < n → IsTrouble (troubled n).0 × ((troubled n).1 + 1 ≡ n)
troubled-fails zero h = absurd (omega arith)
troubled-fails (suc zero) h = (inl (inr (inr (inl refl)), refl), omega arith)
troubled-fails (suc (suc n)) h = (tt, omega arith)

troubled-answers : (n : ℕ) → n ≡ 0 → (troubled n).0 ≡ ok (response 200 (codes "{}"))
troubled-answers zero e = refl
troubled-answers (suc n) e = absurd (omega arith)

reading-IsFlaky :
    IsFlaky flaky_world flaky_client reading (λ n. n) (response 200 (codes "{}")) (codes "{}")
unfolding token beq
reading-IsFlaky = record {
  alive = λ n. refl;
  sleeps = λ d n. (refl, refl);
  random = λ m n. refl;
  drained = λ k resp n. refl;
  closed = λ resp n. refl;
  authorized = λ n. (codes "key", refl, refl);
  requested = refl;
  fails = λ req n h. troubled-fails n h;
  answers = λ payload t n e. troubled-answers n e;
  low = omega arith;
  high = omega arith;
  whole = refl;
  decodes = ((λ body. ok body), refl, refl);
}

reading-safe : replay_safe reading ≡ true
unfolding replay_safe
reading-safe = refl

do_call-recovers_example : (do_call flaky_world flaky_client reading 2).0 ≡ ok (some (codes "{}"))
do_call-recovers_example =
    do_call-recovers flaky_world flaky_client reading (λ n. n) (response 200 (codes "{}"))
      (codes "{}") 2 reading-IsFlaky (λ e h. absurd cc) reading-safe (inl refl) (omega arith)
