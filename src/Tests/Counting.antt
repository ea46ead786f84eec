-- ===== src/Tests/Counting.antt =====
-- Calls in worlds that count: the performed operations of a server, and the time slept.
use walletd_go.Base.{
  ℕ, zero, suc, ◌+◌, ◌*◌, ◌≤◌, ◌<◌, Option, none, some, List, [], ◌∷◌, All, false, pos_part, Bytes,
  codes, ◌≡◌, refl, ◌⊎◌, inl, inr, arith, beq, wrap64,
}
use walletd_go.Errors.Chain.{Err}
use walletd_go.Errors.Result.{ok, err}
use walletd_go.Http.Message.{Request, Response, post}
use walletd_go.Client.World.{Env, HttpClient, use_last_response, token, drain_close}
use walletd_go.Idempotency.{validate}
use walletd_go.Text.Utf8.{runes}
use walletd_go.Client.Policy.{retryable, wait, backoff}
use walletd_go.Client.RetryAfter.{parse_retry_after}
use walletd_go.Client.Do.{Call, replay_safe, on_exchange, do_call, do_keyed}
use walletd_go.Client.Once.{Deduplicates}
use walletd_go.Client.Together.{
  Phase, ready, heard, done, Caller, take_turn, exchanges, Reaches, here, then, takes,
}
use walletd_go.Client.Together.Deduplicated.{starting, IsPerformedIfDone, together_deduplicated}
use walletd_go.Client.Waits.{CountsSleep, do_call-slept}
use walletd_go.Tests.Fixtures.{response, world_of, client_of, reading}

-- A server that performs the operation at the first request, whose answer is lost, and replays the
-- answer to every other request.
abbrev pub losing : HttpClient ℕ
losing = record {
  exchange = λ policy req effects. elim effects [
    | zero ↦ (err Err.plain, suc zero)
    | suc n ↦ (ok (response 200 (codes "{}")), suc n)
  ];
  check_redirect = use_last_response;
}

abbrev pub losing_world : Env ℕ
losing_world = world_of (λ d w. (none, w)) losing

abbrev transfer : Call Bytes
transfer = record {
  method = post;
  path = codes "/v1/transfers";
  idem = codes "order-1042";
  query = [];
  input = some (ok (codes "{}"));
  output = some (λ body. ok body);
}

-- The operations performed are the state.
abbrev pub effects : ℕ → ℕ
effects n = n

losing_exchanged :
    (req : Request) (w : ℕ)
    → ((losing.exchange use_last_response req w).1 ≡ w)
      ⊎ ((w ≡ 0) × ((losing.exchange use_last_response req w).1 ≡ 1))
losing_exchanged req zero = inr (refl, refl)
losing_exchanged req (suc n) = inl refl

losing_answered :
    (req : Request) (w : ℕ) (resp : Response)
    → (losing.exchange use_last_response req w).0 ≡ ok resp
    → 0 < (losing.exchange use_last_response req w).1
losing_answered req zero resp e = omega arith
losing_answered req (suc n) resp e = omega arith

pub losing-Deduplicates : Deduplicates losing_world (client_of losing) (codes "order-1042") effects
unfolding token
losing-Deduplicates = record {
  quiet = record {
    sleep = λ d w. refl;
    rand = λ n w. refl;
    discard = λ n resp w. refl;
    close = λ resp w. refl;
  };
  unspent = λ w. refl;
  exchanged = λ req w keyed. losing_exchanged req w;
  answered = λ req w resp keyed e low high. losing_answered req w resp e;
}

keyed_transfer : beq (codes "order-1042") [] ≡ false
unfolding beq
keyed_transfer = refl

-- The first answer is lost, and the second one returned.
transfer-replayed :
    do_keyed losing_world (client_of losing) transfer 0 ≡ (ok (some (codes "{}")), 1)
unfolding do_keyed beq token validate runes replay_safe wait backoff wrap64
transfer-replayed = refl

-- Two goroutines make the transfer. The first one's answer is lost, then the second one is answered and
-- returns; the first one has still to retry.
abbrev waiting : Phase Bytes → Caller Bytes
waiting phase = record { call = transfer; payload = some (codes "{}"); phase = phase }

abbrev transfers : List (Call Bytes × Option Bytes)
transfers = (transfer, some (codes "{}")) ∷ (transfer, some (codes "{}")) ∷ []

abbrev one_returned : List (Caller Bytes) × ℕ
one_returned = (waiting (heard 1 (err Err.plain)) ∷ waiting (done (ok (some (codes "{}")))) ∷ [], 1)

one_returned_reached : Reaches losing_world (client_of losing) (starting transfers, 0) one_returned
unfolding starting take_turn exchanges token beq on_exchange
one_returned_reached =
    then
      (then (then here (takes [] (waiting (ready 1) ∷ []) (waiting (ready 1)) 0))
        (takes (waiting (heard 1 (err Err.plain)) ∷ []) [] (waiting (ready 1)) 1))
      (takes (waiting (heard 1 (err Err.plain)) ∷ []) []
        (waiting (heard 1 (ok (response 200 (codes "{}"))))) 1)

together_deduplicated_example : (1 ≤ 1) × All (IsPerformedIfDone 1) one_returned.0
together_deduplicated_example =
    together_deduplicated losing_world (client_of losing) effects (codes "order-1042") transfers 0
      one_returned losing-Deduplicates keyed_transfer refl (refl, (refl, tt)) one_returned_reached

-- A server that always answers 503, in a world that counts the nanoseconds slept.
abbrev failing : HttpClient ℕ
failing = record {
  exchange = λ policy req slept. (ok (response 503 []), slept);
  check_redirect = use_last_response;
}

abbrev sleeping_world : Env ℕ
sleeping_world = world_of (λ d slept. (none, slept + pos_part d)) failing

abbrev slept : ℕ → ℕ
slept n = n

sleeping-CountsSleep : CountsSleep sleeping_world (client_of failing) slept
unfolding token
sleeping-CountsSleep = record {
  sleep = λ d w. omega arith;
  rand = λ n w. refl;
  in_range = λ n w. omega arith;
  unspent = λ w. refl;
  discard = λ n resp w. refl;
  close = λ resp w. refl;
  exchanged = λ req w. refl;
}

do_call-slept_example :
    (do_call sleeping_world (client_of failing) reading 7).1 ≤ 7 + 3 * 5_000_000_000
do_call-slept_example =
    do_call-slept sleeping_world (client_of failing) reading slept 7 sleeping-CountsSleep

-- Three waits of half of 200, 400 and 800 milliseconds.
reading-slept : (do_call sleeping_world (client_of failing) reading 7).1 ≡ 700_000_007
unfolding do_call beq token drain_close retryable replay_safe parse_retry_after wait backoff wrap64
reading-slept = refl
