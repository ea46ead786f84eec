-- ===== src/Api/Wire.antt =====
-- The seven listings that end by inference, down to the wire: from what a server answers to the requests
-- for a page, to what Collect returns.
use walletd_go.Base.{
  ℕ, ◌<◌, Option, none, List, [], ◌++◌, length, Bytes, codes, ℤ, pos, ◌≡◌, inl, inr, refl, sym, ap,
  ◌∙◌, subst, arith,
}
use walletd_go.Errors.Chain.{Err}
use walletd_go.Errors.Result.{ok}
use walletd_go.Http.Message.{Response}
use walletd_go.Uuid.{Uuid}
use walletd_go.Client.World.{Env}
use walletd_go.Client.New.{Client}
use walletd_go.Pagination.Size.{IsPageSize}
use walletd_go.Pagination.Iterator.{Iterator}
use walletd_go.Pagination.Loops.{returned}
use walletd_go.Pagination.Walks.{collect}
use walletd_go.Pagination.Listing.{Group, rows, page_after}
use walletd_go.Pagination.Accept.{MayServe, IsListing}
use walletd_go.Pagination.Complete.{collect_truncated}
use walletd_go.Api.Answered.{Holds, fetched-Holds}
use walletd_go.Api.Values.{Values}
use walletd_go.Api.Query.{page_query, set_text, set_id}
use walletd_go.Api.Calls.{Json, fetched}
use walletd_go.Api.Users.{list_users, list_transactions, list_user_transactions}
use walletd_go.Api.Subscriptions.{list_subscriptions}
use walletd_go.Api.Commerce.{list_orders, list_explore_clients}
use walletd_go.Api.Deliveries.{list_webhook_deliveries}
use walletd_go.Api.Listings.{
  Listing, of_users, of_transactions, of_user_transactions, of_subscriptions, of_orders,
  of_explore_clients, of_webhook_deliveries, Row, row_key, one_page, iterator_of, iterator_of_lem,
}

module _ (uuid_string : Uuid → Bytes) where
  -- The path of a listing, and the query for one page of it.
  abbrev pub listing_path : Listing → Bytes
  listing_path (of_users query) = codes "/v1/users"
  listing_path (of_transactions txn_type) = codes "/v1/transactions"
  listing_path (of_user_transactions user_id) =
      codes "/v1/users/" ++ uuid_string user_id ++ codes "/transactions"
  listing_path (of_subscriptions user_id status) = codes "/v1/subscriptions"
  listing_path of_orders = codes "/v1/orders"
  listing_path (of_explore_clients query category) = codes "/v1/explore/clients"
  listing_path (of_webhook_deliveries endpoint_id) = codes "/v1/webhook_deliveries"

  abbrev pub listing_query : Listing → Uuid → ℤ → Values
  listing_query (of_users query) cursor limit =
      set_text (codes "query") query (page_query uuid_string cursor limit)
  listing_query (of_transactions txn_type) cursor limit =
      set_text (codes "type") txn_type (page_query uuid_string cursor limit)
  listing_query (of_user_transactions user_id) cursor limit = page_query uuid_string cursor limit
  listing_query (of_subscriptions user_id status) cursor limit =
      set_text (codes "status") status
        (set_id uuid_string (codes "user_id") user_id (page_query uuid_string cursor limit))
  listing_query of_orders cursor limit = page_query uuid_string cursor limit
  listing_query (of_explore_clients query category) cursor limit =
      set_text (codes "category") category
        (set_text (codes "q") query (page_query uuid_string cursor limit))
  listing_query (of_webhook_deliveries endpoint_id) cursor limit =
      set_id uuid_string (codes "endpoint_id") endpoint_id (page_query uuid_string cursor limit)

module _ {W : Type 0} (env : Env W) (c : Client W) (uuid_string : Uuid → Bytes) where
  -- What the contract of a cursor listing says of the wire: the body of every complete 2xx answer to a
  -- request for a page, of a size from 1 to 100, holds the rows of the next keys, where it decodes.
  abbrev pub AnswersPages : (l : Listing) → Json (List (Row l)) → List (Group (Row l)) → Type 0
  AnswersPages l json groups =
      (w : W) (t : Bytes) (cursor : Uuid) (limit : ℕ) (resp : Response) (page : List (Row l))
      → IsPageSize limit
      → Holds env c (listing_path uuid_string l) (listing_query uuid_string l cursor (pos limit))
          json w t resp page
      → page ≡ page_after groups cursor limit

  pub one_page-fetched :
      (l : Listing) (json : Json (List (Row l))) (cursor : Uuid) (limit : ℤ) (w : W)
      → one_page env c uuid_string l json cursor limit w
        ≡ fetched env c
            (listing_path uuid_string l)
            (listing_query uuid_string l cursor limit)
            json
            w
  unfolding list_users list_transactions list_user_transactions list_subscriptions list_orders
      list_explore_clients list_webhook_deliveries
  one_page-fetched (of_users query) json cursor limit w = refl
  one_page-fetched (of_transactions txn_type) json cursor limit w = refl
  one_page-fetched (of_user_transactions user_id) json cursor limit w = refl
  one_page-fetched (of_subscriptions user_id status) json cursor limit w = refl
  one_page-fetched of_orders json cursor limit w = refl
  one_page-fetched (of_explore_clients query category) json cursor limit w = refl
  one_page-fetched (of_webhook_deliveries endpoint_id) json cursor limit w = refl

  module _ (l : Listing) (json : Json (List (Row l))) (groups : List (Group (Row l)))
      (answers : AnswersPages l json groups) where
    one_page-MayServe :
        MayServe (λ w cursor limit. one_page env c uuid_string l json cursor (pos limit) w) groups
    one_page-MayServe w cursor limit fits =
        rw (one_page-fetched l json cursor (pos limit) w)
          (elim (fetched-Holds env c (listing_path uuid_string l)
            (listing_query uuid_string l cursor (pos limit)) json w) [
              | inl (page, w', t, resp, returns_page, holds) ↦
                  inl (returns_page ∙ ap ok (answers w' t cursor limit resp page fits holds))
              | inr failed ↦ inr failed
            ])

-- A listing is never cut short in silence, whatever happens on the way to the server: if the body of every
-- complete 2xx answer to a request for a page of the listing, of a size from 1 to 100, where it decodes,
-- holds the rows of the next keys, then Collect on the iterator that one of the seven listing methods returns gives the first rows of
-- the listing in order, and all of them if it returns no error. The credential, the network, the clock, the
-- context and the retries may do anything. One unit of fuel more than there are rows is enough.
pub listing_truncated :
    {W : Type 0} (env : Env W) (c : Client W) (uuid_string : Uuid → Bytes) (l : Listing)
    (json : Json (List (Row l))) (groups : List (Group (Row l))) (fuel : ℕ) (w : W)
    → IsListing (row_key l) groups
    → AnswersPages env c uuid_string l json groups
    → length (rows groups) < fuel
    → (collected : List (Row l)) × (missing : List (Row l)) × (e : Option Err) × (s : Iterator W
          (Row l)
        × W)
      × (rows groups ≡ collected ++ missing)
      × (collect fuel (iterator_of env c uuid_string l json) w ≡ returned (collected, e) s)
      × (e ≡ none → missing ≡ [])
listing_truncated {W} env c uuid_string l json groups fuel w listing answers enough =
    subst
      (λ it.
        (collected : List (Row l)) × (missing : List (Row l)) × (e : Option Err) × (s : Iterator W
            (Row l)
          × W)
        × (rows groups ≡ collected ++ missing)
        × (collect fuel it w ≡ returned (collected, e) s)
        × (e ≡ none → missing ≡ []))
      (sym (iterator_of_lem env c uuid_string l json))
      (collect_truncated _ (row_key l) 100 groups fuel w (omega arith, omega arith) listing
        (one_page-MayServe env c uuid_string l json groups answers) enough)
