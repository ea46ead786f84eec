-- ===== src/Tests/Patient.antt =====
-- A GET that is answered with 429 and a delay of two seconds, and then with 200, in a world with a clock.
use walletd_go.Base.{
  ℕ, ◌+◌, ◌∷◌, none, some, List, [], pos, pos_part, +ℤ_parts, wrap64, codes, beq, ◌≡◌, refl, arith,
}
use walletd_go.Text.Decimal.{parse_int}
use walletd_go.Text.Space.{trim_space}
use walletd_go.Errors.Result.{ok}
use walletd_go.Http.Message.{Response}
use walletd_go.Client.World.{Env, HttpClient, use_last_response, token, drain_close}
use walletd_go.Client.Policy.{retryable, wait, backoff}
use walletd_go.Client.RetryAfter.{parse_retry_after}
use walletd_go.Client.Do.{do_call, do_keyed, replay_safe}
use walletd_go.Client.Timed.{Timed, IsTimed, IsSpaced}
use walletd_go.Client.Patience.{do_call-IsSpaced}
use walletd_go.Tests.Fixtures.{response, world_of, client_of, reading}

-- The time in nanoseconds, and the exchanges.
abbrev Timeline : Type 0
Timeline = ℕ × List Timed

abbrev too_many : Response
too_many = record (response 429 []) { retry_after = codes "2" }

abbrev answer_after : List Timed → Response
answer_after [] = too_many
answer_after (x ∷ xs) = response 200 (codes "{}")

-- An exchange takes 5 nanoseconds.
abbrev exchange_at : List Timed → ℕ → Timed
exchange_at xs t = record { sent = pos t; outcome = ok (answer_after xs); answered = pos (t + 5) }

abbrev timing : HttpClient Timeline
timing = record {
  exchange = λ policy req w. (ok (answer_after w.1), (w.0 + 5, exchange_at w.1 w.0 ∷ w.1));
  check_redirect = use_last_response;
}

abbrev ticking : Env Timeline
ticking = record (world_of (λ d w. (none, (w.0 + pos_part d, w.1))) timing) { now = λ w. pos w.0 }

abbrev exchanges_of : Timeline → List Timed
exchanges_of w = w.1

ticking-IsTimed : IsTimed ticking (client_of timing) exchanges_of
unfolding token
ticking-IsTimed = record {
  quiet = record {
    sleep = λ d w. refl;
    rand = λ n w. refl;
    discard = λ n resp w. refl;
    close = λ resp w. refl;
  };
  authorized = λ w. refl;
  exchanged = λ req w. refl;
  slept = λ d w fired. omega (arith, +ℤ_parts (pos w.0) d);
  drawn = λ n w. omega arith;
  discarded = λ n resp w. omega arith;
  closed = λ resp w. omega arith;
  granted = λ w. omega arith;
}

do_call-IsSpaced_example :
    IsSpaced ticking (exchanges_of (do_call ticking (client_of timing) reading (0, [])).1)
    × IsSpaced ticking (exchanges_of (do_keyed ticking (client_of timing) reading (0, [])).1)
do_call-IsSpaced_example =
    do_call-IsSpaced ticking (client_of timing) reading exchanges_of (0, []) ticking-IsTimed refl

-- The second request goes out two seconds after the first answer.
reading_spaced : do_call ticking (client_of timing) reading (0, []) ≡ (
  ok (some (codes "{}")),
  (2_000_000_010, exchange_at (exchange_at [] 0 ∷ []) 2_000_000_005 ∷ exchange_at [] 0 ∷ []),
)
unfolding do_call beq token drain_close retryable replay_safe parse_retry_after parse_int trim_space
    wait backoff wrap64
reading_spaced = refl
