-- ===== src/Api/Recovered.antt =====
-- The seven listings that end by inference, over a server that fails for a while: the retries of do make up
-- for its failures.
use walletd_go.Base.{ℕ, ◌<◌, true, none, List, length, pos, Bytes, ◌<ℤ◌, ◌≡◌, refl, ap, inl}
use walletd_go.Uuid.{Uuid}
use walletd_go.Http.Message.{Response}
use walletd_go.Client.World.{Env}
use walletd_go.Client.New.{Client}
use walletd_go.Client.Do.{replay_safe}
use walletd_go.Client.Flaky.{IsFlaky}
use walletd_go.Client.Recovers.{do_call-recovers}
use walletd_go.Pagination.Size.{IsPageSize}
use walletd_go.Pagination.Iterator.{Iterator}
use walletd_go.Pagination.Loops.{returned}
use walletd_go.Pagination.Walks.{collect}
use walletd_go.Pagination.Listing.{Group, rows, page_after}
use walletd_go.Pagination.Accept.{IsListing, Serves}
use walletd_go.Api.Calls.{Json, answered, fetched}
use walletd_go.Api.Answered.{fetch_call}
use walletd_go.Api.Listings.{Listing, Row, row_key, one_page, iterator_of, listing_complete}
use walletd_go.Api.Wire.{listing_path, listing_query, one_page-fetched}

module _ {W : Type 0} (env : Env W) (c : Client W) (uuid_string : Uuid → Bytes) (l : Listing)
    (json : Json (List (Row l))) (groups : List (Group (Row l))) (left : W → ℕ)
    (answer : Uuid → ℕ → Response) where
  -- The server fails for a while at every page, and then answers with the rows of the next keys.
  abbrev pub IsFlakyListing : Type 0
  IsFlakyListing =
      (cursor : Uuid) (limit : ℕ)
      → IsPageSize limit
      → IsFlaky env c
          (fetch_call env c (listing_path uuid_string l)
            (listing_query uuid_string l cursor (pos limit)) json)
          left (answer cursor limit) (page_after groups cursor limit)

  page-safe :
      (cursor : Uuid) (limit : ℕ)
      → replay_safe (
          fetch_call env c
            (listing_path uuid_string l)
            (listing_query uuid_string l cursor (pos limit))
            json)
        ≡ true
  unfolding replay_safe
  page-safe cursor limit = refl

  one_page-Serves :
      IsFlakyListing
      → ((w : W) → pos (left w) <ℤ c.retry.max_attempts)
      → Serves (λ w cursor limit. one_page env c uuid_string l json cursor (pos limit) w) groups
  unfolding fetched answered
  one_page-Serves flaky enough w cursor limit fits =
      rw (one_page-fetched env c uuid_string l json cursor (pos limit) w) (
        ap (answered json.zero_value) (
          do_call-recovers env c
            (fetch_call env c (listing_path uuid_string l)
              (listing_query uuid_string l cursor (pos limit)) json)
            left (answer cursor limit) (page_after groups cursor limit) w (flaky cursor limit fits)
            (λ e h. absurd cc) (page-safe cursor limit) (inl refl) (enough w)))

-- A listing outlasts a server in trouble: if at every page, of a size from 1 to 100, it fails fewer times in a row than MaxAttempts,
-- each time by no answer, by a 500, 502, 503 or 504 that names no time to retry or by a 2xx whose body breaks
-- off, and then answers with a complete 2xx that decodes to the rows of the next keys, then Collect on the
-- iterator that one of the seven listing methods returns gives the whole listing in order and no error. No
-- key is repeated or nil, the context is never over, and timers, random numbers and the credential never
-- fail. One unit of fuel more than there are rows is enough.
pub listing_recovers :
    {W : Type 0} (env : Env W) (c : Client W) (uuid_string : Uuid → Bytes) (l : Listing)
    (json : Json (List (Row l))) (groups : List (Group (Row l))) (left : W → ℕ)
    (answer : Uuid → ℕ → Response) (fuel : ℕ) (w : W)
    → IsListing (row_key l) groups
    → IsFlakyListing env c uuid_string l json groups left answer
    → ((w' : W) → pos (left w') <ℤ c.retry.max_attempts)
    → length (rows groups) < fuel
    → (s : Iterator W (Row l) × W) × (collect fuel (iterator_of env c uuid_string l json) w
        ≡ returned (rows groups, none) s)
listing_recovers env c uuid_string l json groups left answer fuel w listing flaky few enough =
    listing_complete env c uuid_string l json groups fuel w listing
      (one_page-Serves env c uuid_string l json groups left answer flaky few) enough
