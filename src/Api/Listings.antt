-- ===== src/Api/Listings.antt =====
-- The listings that end by inference, all of them: Users, Transactions, UserTransactions, Subscriptions,
-- Orders, ExploreClients and WebhookDeliveries. And ClientOfferings, whose answers name the next cursor.
use walletd_go.Base.{ℕ, ◌<◌, Option, none, List, length, Bytes, ℤ, pos, ◌≡◌, refl, sym, subst}
use walletd_go.Errors.Result.{Result}
use walletd_go.Uuid.{Uuid}
use walletd_go.Types.People.{User, Transaction, UserTransaction}
use walletd_go.Types.Money.{Subscription}
use walletd_go.Types.Commerce.{Order, CatalogClient}
use walletd_go.Types.Deliveries.{WebhookDelivery}
use walletd_go.Client.Act.{Act}
use walletd_go.Client.World.{Env}
use walletd_go.Client.New.{Client}
use walletd_go.Pagination.Iterator.{Iterator, new_iterator}
use walletd_go.Pagination.Loops.{returned}
use walletd_go.Pagination.Walks.{collect}
use walletd_go.Pagination.Listing.{Group, rows}
use walletd_go.Pagination.Accept.{Serves, IsListing}
use walletd_go.Pagination.Complete.{new_iterator-CollectsAll}
use walletd_go.Api.Calls.{Json}
use walletd_go.Api.Users.{
  list_users, users, list_transactions, transactions, list_user_transactions, user_transactions,
}
use walletd_go.Api.Subscriptions.{list_subscriptions, subscriptions}
use walletd_go.Api.Commerce.{list_orders, orders, list_explore_clients, explore_clients}
use walletd_go.Api.Deliveries.{list_webhook_deliveries, webhook_deliveries}

-- A listing, by its method and the arguments of it.
pub data Listing : Type 0 where
  of_users : Bytes → Listing
  of_transactions : Bytes → Listing
  of_user_transactions : Uuid → Listing
  of_subscriptions : Option Uuid → Bytes → Listing
  of_orders : Listing
  of_explore_clients : Bytes → Bytes → Listing
  of_webhook_deliveries : Option Uuid → Listing

-- Its rows, and the key that the server pages by.
abbrev pub Row : Listing → Type 0
Row (of_users query) = User
Row (of_transactions txn_type) = Transaction
Row (of_user_transactions user_id) = UserTransaction
Row (of_subscriptions user_id status) = Subscription
Row of_orders = Order
Row (of_explore_clients query category) = CatalogClient
Row (of_webhook_deliveries endpoint_id) = WebhookDelivery

abbrev pub row_key : (l : Listing) → Row l → Uuid
row_key (of_users query) r = r.id
row_key (of_transactions txn_type) r = r.id
row_key (of_user_transactions user_id) r = r.txn_id
row_key (of_subscriptions user_id status) r = r.id
row_key of_orders r = r.id
row_key (of_explore_clients query category) r = r.id
row_key (of_webhook_deliveries endpoint_id) r = r.id

module _ {W : Type 0} (env : Env W) (c : Client W) (uuid_string : Uuid → Bytes) where
  -- The method for one page.
  abbrev pub one_page :
      (l : Listing) → Json (List (Row l)) → Uuid → ℤ → Act W (Result (List (Row l)))
  one_page (of_users query) json = list_users env c uuid_string json query
  one_page (of_transactions txn_type) json = list_transactions env c uuid_string json txn_type
  one_page (of_user_transactions user_id) json =
      list_user_transactions env c uuid_string json user_id
  one_page (of_subscriptions user_id status) json =
      list_subscriptions env c uuid_string json user_id status
  one_page of_orders json = list_orders env c uuid_string json
  one_page (of_explore_clients query category) json =
      list_explore_clients env c uuid_string json query category
  one_page (of_webhook_deliveries endpoint_id) json =
      list_webhook_deliveries env c uuid_string json endpoint_id

  -- The method for the iterator.
  abbrev pub iterator_of : (l : Listing) → Json (List (Row l)) → Iterator W (Row l)
  iterator_of (of_users query) json = users env c uuid_string json query
  iterator_of (of_transactions txn_type) json = transactions env c uuid_string json txn_type
  iterator_of (of_user_transactions user_id) json = user_transactions env c uuid_string json user_id
  iterator_of (of_subscriptions user_id status) json =
      subscriptions env c uuid_string json user_id status
  iterator_of of_orders json = orders env c uuid_string json
  iterator_of (of_explore_clients query category) json =
      explore_clients env c uuid_string json query category
  iterator_of (of_webhook_deliveries endpoint_id) json =
      webhook_deliveries env c uuid_string json endpoint_id

  -- Each iterator fetches its pages by the method for one page.
  pub iterator_of_lem :
      (l : Listing) (json : Json (List (Row l)))
      → iterator_of l json
        ≡ new_iterator (λ w cursor limit. one_page l json cursor (pos limit) w) (row_key l)
  unfolding users transactions user_transactions subscriptions orders explore_clients
      webhook_deliveries
  iterator_of_lem (of_users query) json = refl
  iterator_of_lem (of_transactions txn_type) json = refl
  iterator_of_lem (of_user_transactions user_id) json = refl
  iterator_of_lem (of_subscriptions user_id status) json = refl
  iterator_of_lem of_orders json = refl
  iterator_of_lem (of_explore_clients query category) json = refl
  iterator_of_lem (of_webhook_deliveries endpoint_id) json = refl

-- Collect on the iterator that one of the seven listing methods returns gives the whole listing in order
-- and no error, in every world in which the method for one page keeps the contract of a cursor listing, if
-- no key is repeated or nil. The key is the row's id, and the transaction's for the history of a user,
-- where a transaction may have several rows. One unit of fuel more than there are rows is enough.
pub listing_complete :
    {W : Type 0} (env : Env W) (c : Client W) (uuid_string : Uuid → Bytes) (l : Listing)
    (json : Json (List (Row l))) (groups : List (Group (Row l))) (fuel : ℕ) (w : W)
    → IsListing (row_key l) groups
    → Serves (λ w' cursor limit. one_page env c uuid_string l json cursor (pos limit) w') groups
    → length (rows groups) < fuel
    → (s : Iterator W (Row l) × W) × (collect fuel (iterator_of env c uuid_string l json) w
        ≡ returned (rows groups, none) s)
listing_complete {W} env c uuid_string l json groups fuel w listing serves enough =
    subst
      (λ it. (s : Iterator W (Row l) × W) × (collect fuel it w ≡ returned (rows groups, none) s))
      (sym (iterator_of_lem env c uuid_string l json))
      (new_iterator-CollectsAll _ (row_key l) groups fuel w listing serves enough)
