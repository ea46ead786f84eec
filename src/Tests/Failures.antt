-- ===== src/Tests/Failures.antt =====
-- Error responses, and keys that are refused.
use walletd_go.Base.{
  ℕ, ◌≤◌, String, true, false, none, some, [], All, ◌≡◌, ◌≢◌, ◌↔◌, ◌⊎◌, refl, arith, codes, beq,
}
use walletd_go.Errors.Sentinel.{Sentinel}
use walletd_go.Errors.Code.{lookup, code_sentinels}
use walletd_go.Errors.Problem.{Problem, message, status_sentinel}
use walletd_go.Errors.Chain.{Err, is}
use walletd_go.Errors.Decode.{decode_problem}
use walletd_go.Errors.Matching.{MatchesCode, MatchesStatus, is-problem}
use walletd_go.Errors.Table.{is-problem_unclassified}
use walletd_go.Errors.Envelope.{decode_problem-message, decode_problem-undecodable}
use walletd_go.Idempotency.{validate, max_idempotency_key_len, invalid_key}
use walletd_go.Idempotency.Printable.{IsPrintable, validate-eq_none}
use walletd_go.Tests.Fixtures.{response}

abbrev problem_of : String → ℕ → Problem
problem_of code status = record {
  code = code;
  detail = none;
  status = status;
  title = "refused";
  type = none;
}

is-problem_example : (is (Err.problem (problem_of "user_exists" 409)) Sentinel.conflict ≡ true) ↔ (
    MatchesCode (problem_of "user_exists" 409) Sentinel.conflict
    ⊎ MatchesStatus (problem_of "user_exists" 409) Sentinel.conflict)
is-problem_example = is-problem (problem_of "user_exists" 409) Sentinel.conflict

user_exists-lookup : lookup "user_exists" code_sentinels ≡ some Sentinel.user_exists
unfolding lookup
user_exists-lookup = refl

unknown-lookup : lookup "unknown" code_sentinels ≡ none
unfolding lookup
unknown-lookup = refl

is-problem_unclassified_example :
    is (Err.problem (problem_of "unknown" 405)) Sentinel.bad_request ≡ false
is-problem_unclassified_example =
    is-problem_unclassified (problem_of "unknown" 405) Sentinel.bad_request unknown-lookup
      (omega arith) λ h. ground arith

decode_problem-message_example :
    ((decode_problem (λ body. none) (response 502 [])).title ≢ "")
    × (message (decode_problem (λ body. none) (response 502 [])) ≢ "")
decode_problem-message_example = decode_problem-message (λ body. none) (response 502 []) (λ e. cc)

decode_problem-undecodable_example :
    (is (Err.problem (decode_problem (λ body. none) (response 502 []))) Sentinel.server ≡ true)
    ↔ (status_sentinel 502 ≡ some Sentinel.server)
decode_problem-undecodable_example =
    decode_problem-undecodable (λ body. none) (response 502 []) Sentinel.server refl

validate-eq_none_example :
    (validate (codes "order-1042") ≡ none)
    ↔ ((1 ≤ 10) × (10 ≤ max_idempotency_key_len) × All IsPrintable (codes "order-1042"))
validate-eq_none_example = validate-eq_none (codes "order-1042")

empty_key-invalid : validate [] ≡ some invalid_key
unfolding validate beq
empty_key-invalid = refl
