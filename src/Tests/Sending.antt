-- ===== src/Tests/Sending.antt =====
-- Calls of a client, sent in the world of the fixtures.
use walletd_go.Base.{
  ℕ, zero, suc, wrap64, ◌≤◌, false, none, some, List, [], ◌∷◌, ◌++◌, length, All, pos, codes, beq,
  ◌≡◌, ◌≢◌, refl, arith,
}
use walletd_go.Errors.Chain.{Err}
use walletd_go.Errors.Result.{ok}
use walletd_go.Http.Message.{Response}
use walletd_go.Client.World.{
  Env, HttpClient, use_last_response, drain_close, Url, Credential, api_key, token,
}
use walletd_go.Client.New.{Client, new, apply_options, without_retries}
use walletd_go.Client.Policy.{retryable, wait, backoff}
use walletd_go.Client.Do.{do_call, loop, send, replay_safe}
use walletd_go.Client.Recording.{Exchange, recording_env, recording}
use walletd_go.Client.Outcomes.{AllowsRetry, Explains}
use walletd_go.Client.Trace.{IsOfCall}
use walletd_go.Client.Loop.{loop-send}
use walletd_go.Client.Entry.{body_of}
use walletd_go.Client.Sends.{count, do_call-sent, do_call-explained, do_call-performed_once}
use walletd_go.Client.Valid.{IsSafe, new-IsSafe}
use walletd_go.Tests.Fixtures.{
  response, world_of, client_of, base_url, world, client, creation, reading, performed,
}

creation-unsafe : replay_safe creation ≡ false
unfolding replay_safe beq
creation-unsafe = refl

limited_unperformed : (resp : Response) → resp.status ≡ 429 → performed (ok resp) ≡ false
limited_unperformed resp e = ground arith

do_call-performed_once_example :
    (sent : List Exchange) × ((do_call
        (recording_env (world (response 503 [])))
        (recording (client (response 503 [])))
        creation
        (tt, [])).1.1
      ≡ [] ++ sent)
    × (count performed sent ≤ 1)
do_call-performed_once_example =
    do_call-performed_once (world (response 503 [])) (client (response 503 [])) creation (tt, [])
      performed creation-unsafe limited_unperformed

-- Answers whose bodies break off, as many as the state says, and then a whole one.
abbrev broken_off : Response
broken_off = record (response 200 (codes "{")) { body_error = some Err.plain }

abbrev breaking : HttpClient ℕ
breaking = record {
  exchange = λ policy req n. elim n [
    | zero ↦ (ok (response 200 (codes "{}")), zero)
    | suc m ↦ (ok broken_off, m)
  ];
  check_redirect = use_last_response;
}

abbrev breaking_world : Env ℕ
breaking_world = world_of (λ d n. (none, n)) breaking

reading-answered :
    (do_call (recording_env breaking_world) (recording (client_of breaking)) reading (2, [])).0
    ≡ ok (some (codes "{}"))
unfolding do_call beq token drain_close retryable replay_safe wait backoff wrap64
reading-answered = refl

do_call-explained_example :
    (earlier : List Exchange) × (x : Exchange) × ((do_call
        (recording_env breaking_world)
        (recording (client_of breaking))
        reading
        (2, [])).1.1
      ≡ [] ++ (earlier ++ x ∷ []))
    × All (λ y. AllowsRetry reading y.outcome) earlier
    × Explains reading x.outcome (ok (some (codes "{}")))
do_call-explained_example =
    do_call-explained breaking_world (client_of breaking) reading (2, []) (some (codes "{}"))
      reading-answered

do_call-sent_example :
    (sent : List Exchange) × ((do_call
        (recording_env (world (response 503 [])))
        (recording (client (response 503 [])))
        reading
        (tt, [])).1.1
      ≡ [] ++ sent)
    × (length sent ≤ 4)
    × All (IsOfCall (world (response 503 [])) (client (response 503 [])) reading none) sent
unfolding body_of
do_call-sent_example =
    do_call-sent (world (response 503 [])) (client (response 503 [])) reading (tt, [])

loop-send_example :
    loop (world (response 503 [])) (client (response 503 [])) reading 9 none 1 tt ≡ (
      some (send (world (response 503 [])) (client (response 503 [])) reading none tt).0,
      (send (world (response 503 [])) (client (response 503 [])) reading none tt).1,
    )
loop-send_example =
    loop-send (world (response 503 [])) (client (response 503 [])) reading 9 none tt (omega arith)

abbrev test_key : Credential Unit
test_key = api_key (codes "key")

abbrev made_client : Client Unit
made_client = record (client (response 200 [])) {
  retry = record (client (response 200 [])).retry { max_attempts = pos 1 };
}

made_client_lem :
    new
      (world (response 200 []))
      (codes "https://api.walletd.io/")
      (some test_key)
      (without_retries ∷ [])
    ≡ ok made_client
unfolding new apply_options beq
made_client_lem = refl

new-IsSafe_example :
    (u : Url) × (ok base_url ≡ ok u) × IsSafe u made_client × (some test_key ≢ none)
new-IsSafe_example =
    new-IsSafe (world (response 200 [])) (codes "https://api.walletd.io/") (some test_key)
      (without_retries ∷ []) made_client made_client_lem
