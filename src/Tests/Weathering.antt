-- ===== src/Tests/Weathering.antt =====
-- The history of a user, from a server that loses the first answer at every page.
use walletd_go.Base.{
  ℕ, zero, suc, ◌<◌, ◌+◌, ◌<ℤ◌, Bool, true, false, none, [], ◌∷◌, pos, codes, ◌≡◌, refl, beq, arith,
}
use walletd_go.Uuid.{Uuid}
use walletd_go.Errors.Chain.{Err}
use walletd_go.Errors.Result.{Result, ok, err}
use walletd_go.Http.Message.{Request, Response}
use walletd_go.Types.People.{UserTransaction}
use walletd_go.Client.World.{Env, HttpClient, use_last_response, token}
use walletd_go.Client.Do.{request, target}
use walletd_go.Client.Flaky.{IsTrouble}
use walletd_go.Pagination.Iterator.{Iterator}
use walletd_go.Pagination.Loops.{returned}
use walletd_go.Pagination.Walks.{collect}
use walletd_go.Pagination.Listing.{rows}
use walletd_go.Api.Listings.{of_user_transactions, iterator_of}
use walletd_go.Api.Recovered.{IsFlakyListing, listing_recovers}
use walletd_go.Tests.Fixtures.{response, world_of, client_of, letter}
use walletd_go.Tests.Listing.{
  cash, points, history, history-IsListing, by_query, page_of, page_json, history_call,
  history-body,
}

-- The state says whether the next answer is lost.
abbrev weather : Bool → Request → Result Response × Bool
weather true req = (err Err.plain, false)
weather false req = (ok (response 200 (by_query req.target)), true)

abbrev stormy : HttpClient Bool
stormy = record { exchange = λ policy req w. weather w req; check_redirect = use_last_response }

abbrev stormy_world : Env Bool
stormy_world = record (world_of (λ d w. (none, w)) stormy) { url_string = λ u. u.raw_query }

abbrev left : Bool → ℕ
left true = 1
left false = 0

abbrev page_answer : Uuid → ℕ → Response
page_answer cursor limit =
    response 200 (by_query (target stormy_world (client_of stormy) (history_call cursor limit)))

stormy-fails :
    (req : Request) (w : Bool)
    → 0 < left w
    → IsTrouble (weather w req).0 × (left (weather w req).1 + 1 ≡ left w)
stormy-fails req true h = (tt, refl)
stormy-fails req false h = absurd (omega arith)

stormy-answers :
    (req : Request) (w : Bool)
    → left w ≡ 0
    → (weather w req).0 ≡ ok (response 200 (by_query req.target))
stormy-answers req true e = absurd (omega arith)
stormy-answers req false e = refl

stormy-IsFlakyListing :
    IsFlakyListing stormy_world
      (client_of stormy)
      letter
      (of_user_transactions 5)
      page_json
      history
      left
      page_answer
unfolding token beq request target
stormy-IsFlakyListing cursor zero some_limit = absurd (omega arith)
stormy-IsFlakyListing cursor (suc n) some_limit = record {
  alive = λ w. refl;
  sleeps = λ d w. (refl, refl);
  random = λ m w. refl;
  drained = λ k resp w. refl;
  closed = λ resp w. refl;
  authorized = λ w. (codes "key", refl, refl);
  requested = refl;
  fails = λ req w h. stormy-fails req w h;
  answers = λ payload t w e. stormy-answers _ w e;
  low = omega arith;
  high = omega arith;
  whole = refl;
  decodes = (page_of, refl, history-body [] cursor n);
}

few : (w : Bool) → pos (left w) <ℤ (client_of stormy).retry.max_attempts
few true = omega arith
few false = omega arith

listing_recovers_example :
    (s : Iterator Bool UserTransaction × Bool) × (collect 3
        (iterator_of stormy_world (client_of stormy) letter (of_user_transactions 5) page_json)
        true
      ≡ returned (cash ∷ points ∷ [], none) s)
unfolding rows
listing_recovers_example =
    listing_recovers stormy_world (client_of stormy) letter (of_user_transactions 5) page_json
      history left page_answer 3 true history-IsListing stormy-IsFlakyListing few (omega arith)
