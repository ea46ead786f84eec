-- ===== src/Tests/Rotating.antt =====
-- A credential that gives another token every time, and a server that fails once.
use walletd_go.Base.{
  ℕ, zero, suc, ◌+◌, ◌∷◌, Option, none, some, [], Bytes, codes, beq, wrap64, ◌≡◌, refl,
}
use walletd_go.Errors.Result.{Result, ok, err}
use walletd_go.Errors.Chain.{Err}
use walletd_go.Http.Message.{Response}
use walletd_go.Client.World.{
  Env, HttpClient, credential_func, use_last_response, token, drain_close,
}
use walletd_go.Client.New.{Client}
use walletd_go.Client.Policy.{retryable, wait, backoff}
use walletd_go.Client.Do.{do_call, do_keyed, replay_safe}
use walletd_go.Client.Tokens.{TracksTokens, do_call-authorized}
use walletd_go.Tests.Fixtures.{response, world_of, client_of, reading}

-- The tokens given out so far, and the one that is unsent.
abbrev Issuer : Type 0
Issuer = ℕ × Option Bytes

abbrev nth_token : ℕ → Bytes
nth_token n = (97 + n) ∷ []

-- No answer to the first token.
abbrev second_answers : ℕ → Result Response
second_answers zero = err Err.plain
second_answers (suc zero) = err Err.plain
second_answers (suc (suc n)) = ok (response 200 (codes "{}"))

abbrev asking : HttpClient Issuer
asking = record {
  exchange = λ policy req w. (second_answers w.0, (w.0, none));
  check_redirect = use_last_response;
}

abbrev issuing : Env Issuer
issuing = world_of (λ d w. (none, w)) asking

abbrev rotating : Client Issuer
rotating = record (client_of asking) {
  cred = credential_func (λ w. (ok (nth_token w.0), (w.0 + 1, some (nth_token w.0))));
}

abbrev unsent : Issuer → Option Bytes
unsent w = w.1

rotating-TracksTokens : TracksTokens issuing rotating unsent
unfolding token
rotating-TracksTokens = record {
  quiet = record {
    sleep = λ d w. refl;
    rand = λ n w. refl;
    discard = λ n resp w. refl;
    close = λ resp w. refl;
  };
  granted = λ w spent. refl;
  sent = λ req w t holds carries. refl;
}

do_call-authorized_example :
    (unsent (do_call issuing rotating reading (0, none)).1 ≡ none)
    × (unsent (do_keyed issuing rotating reading (0, none)).1 ≡ none)
do_call-authorized_example =
    do_call-authorized issuing rotating reading unsent (0, none) rotating-TracksTokens refl

-- Two tokens were given out.
reading_authorized :
    do_call issuing rotating reading (0, none) ≡ (ok (some (codes "{}")), (2, none))
unfolding do_call beq token drain_close retryable replay_safe wait backoff wrap64
reading_authorized = refl
