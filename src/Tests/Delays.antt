-- ===== src/Tests/Delays.antt =====
-- Delays of the default policy.
use walletd_go.Base.{
  ◌+◌, ◌-◌, ◌*◌, ◌/◌, ◌^◌, min, ◌≤◌, none, some, [], ℤ, pos, ◌≤ℤ◌, ◌<ℤ◌, pos_part, neg_part, wrap64,
  codes, ◌≡◌, refl, arith,
}
use walletd_go.Text.Decimal.{parse_int}
use walletd_go.Text.Space.{trim_space}
use walletd_go.Client.Policy.{default_retry_policy, backoff, backoff_step, wait}
use walletd_go.Client.RetryAfter.{parse_retry_after, second}
use walletd_go.Client.Delays.{backoff-bounds, backoff_step_lem, parse_retry_after_seconds}
use walletd_go.Tests.Fixtures.{response, world}

backoff-bounds_example :
    (neg_part (backoff (world (response 503 [])) default_retry_policy 3 tt).0 ≡ 0)
    × (pos_part (backoff (world (response 503 [])) default_retry_policy 3 tt).0 ≤ 5_000_000_000)
    × (pos 200_000_000 ≤ℤ pos 0
        → (backoff (world (response 503 [])) default_retry_policy 3 tt).0 ≡ pos 0)
    × (pos 0 <ℤ pos 200_000_000
        → pos_part (backoff_step default_retry_policy 3) / 2
          ≤ pos_part (backoff (world (response 503 [])) default_retry_policy 3 tt).0)
backoff-bounds_example =
    backoff-bounds (world (response 503 [])) default_retry_policy 3 tt λ n v. omega arith

backoff_step_lem_example :
    backoff_step default_retry_policy 3 ≡ pos (min (200_000_000 * 2 ^ (3 - 1)) 5_000_000_000)
backoff_step_lem_example =
    backoff_step_lem default_retry_policy 3 (omega arith) (omega arith) (omega arith) (omega arith)

-- A base delay of 2 ^ 31 + 1 nanoseconds and a cap of an hour: the 34th step wraps round to 2 ^ 33.
backoff_step_wrapped :
    backoff_step
      (record {
        max_attempts = pos 40;
        base_delay = pos (2 ^ 31 + 1);
        max_delay = pos 3_600_000_000_000;
      })
      34
    ≡ pos (2 ^ 33)
unfolding backoff_step wrap64
backoff_step_wrapped = refl

long_header : parse_int (trim_space (codes "9223372037")) ≡ some (pos 9_223_372_037)
unfolding parse_int trim_space
long_header = refl

parse_retry_after_seconds_example :
    (9_223_372_037 ≤ 9_223_372_036
      → parse_retry_after (λ v. none) (pos 0) (codes "9223372037")
        ≡ some (pos (9_223_372_037 * second)))
    × (9_223_372_037 ≤ 9_223_372_037
        → 9_223_372_037 ≤ 18_446_744_073
        → (d : ℤ) × (parse_retry_after (λ v. none) (pos 0) (codes "9223372037") ≡ some d)
          × (d <ℤ pos 0)
          × (wait (world (response 429 [])) d tt ≡ (none, tt)))
parse_retry_after_seconds_example =
    parse_retry_after_seconds (world (response 429 [])) tt (codes "9223372037") 9_223_372_037
      long_header
