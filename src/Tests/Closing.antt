-- ===== src/Tests/Closing.antt =====
-- A GET that is answered with 503 and then with 200, in a world that keeps which body is open.
use walletd_go.Base.{ℕ, zero, suc, Option, none, some, [], codes, beq, wrap64, ◌≡◌, refl}
use walletd_go.Errors.Result.{ok}
use walletd_go.Http.Message.{Response}
use walletd_go.Client.World.{Env, HttpClient, use_last_response, token, drain_close}
use walletd_go.Client.Policy.{retryable, wait, backoff}
use walletd_go.Client.RetryAfter.{parse_retry_after}
use walletd_go.Client.Do.{do_call, do_keyed, replay_safe}
use walletd_go.Client.Bodies.{TracksBodies, do_call-closed}
use walletd_go.Tests.Fixtures.{response, world_of, client_of, reading}

-- The failures to come, and the answer whose body is open.
abbrev Connection : Type 0
Connection = ℕ × Option Response

abbrev next_answer : ℕ → Response × ℕ
next_answer zero = (response 200 (codes "{}"), zero)
next_answer (suc n) = (response 503 [], n)

abbrev connected : HttpClient Connection
connected = record {
  exchange =
      λ policy req w. (ok (next_answer w.0).0, ((next_answer w.0).1, some (next_answer w.0).0));
  check_redirect = use_last_response;
}

abbrev tracking : Env Connection
tracking = record (world_of (λ d w. (none, w)) connected) { close = λ resp w. (w.0, none) }

abbrev open_body : Connection → Option Response
open_body w = w.1

tracking-TracksBodies : TracksBodies tracking (client_of connected) open_body
unfolding token
tracking-TracksBodies = record {
  exchanged = λ req w free. refl;
  discarded = λ n resp w opened. opened;
  closed = λ resp w opened. refl;
  slept = λ d w free. free;
  drawn = λ n w free. free;
  authorized = λ w free. free;
}

do_call-closed_example :
    (open_body (do_call tracking (client_of connected) reading (1, none)).1 ≡ none)
    × (open_body (do_keyed tracking (client_of connected) reading (1, none)).1 ≡ none)
do_call-closed_example =
    do_call-closed tracking (client_of connected) reading open_body (1, none) tracking-TracksBodies
      refl

-- Both bodies were opened, and the call is answered.
reading-answered :
    do_call tracking (client_of connected) reading (1, none) ≡ (ok (some (codes "{}")), (0, none))
unfolding do_call beq token drain_close retryable replay_safe parse_retry_after wait backoff wrap64
reading-answered = refl
