-- ===== src/Api/Commerce.antt =====
-- commerce.go: the catalog, the orders and the directory of storefronts.
use walletd_go.Base.{Option, List, [], ◌++◌, ℤ, pos, Bytes, codes}
use walletd_go.Errors.Result.{Result, ok, err}
use walletd_go.Uuid.{Uuid}
use walletd_go.Pagination.Iterator.{Iterator, new_iterator}
use walletd_go.Pagination.PageIterator.{PageIterator, new_page_iterator}
use walletd_go.Types.Commerce.{
  CatalogClient, Offering, OfferingPage, Order, ExploreClientDetail, ExploreOfferingDetail,
}
use walletd_go.Client.Act.{Act}
use walletd_go.Client.World.{Env}
use walletd_go.Client.New.{Client}
use walletd_go.Api.Calls.{Json, fetched}
use walletd_go.Api.Query.{page_query, set_text, set_limit, OfferingFilter, offering_query}

-- `uuid_string` is `UUID.String`; each method takes the decoder of what it returns and the encoder of
-- what it sends.
module _ {W : Type 0} (env : Env W) (c : Client W) (uuid_string : Uuid → Bytes) where
  -- (c *Client) ListClients
  unfoldable pub list_clients :
      Json (List CatalogClient) → Bytes → ℤ → Act W (Result (List CatalogClient))
  unfolding fetched
  list_clients json status limit =
      fetched env c (codes "/v1/clients") (set_limit limit (set_text (codes "status") status []))
        json

  -- (c *Client) GetClient
  unfoldable pub get_client : Json CatalogClient → Uuid → Act W (Result CatalogClient)
  unfolding fetched
  get_client json client_id = fetched env c (codes "/v1/clients/" ++ uuid_string client_id) [] json

  -- (c *Client) ListClientOfferings
  unfoldable pub list_client_offerings :
      Json OfferingPage → Uuid → OfferingFilter → Uuid → ℤ → Act W (Result OfferingPage)
  unfolding fetched
  list_client_offerings json client_id filter cursor limit =
      fetched env c (codes "/v1/clients/" ++ uuid_string client_id ++ codes "/offerings")
        (offering_query uuid_string filter cursor limit) json

  -- The rows and the next cursor of a page.
  unfoldable pub page_parts : Result OfferingPage → Result (List Offering × Option Uuid)
  page_parts (ok page) = ok (page.offerings, page.next_cursor)
  page_parts (err e) = err e

  -- (c *Client) ClientOfferings
  unfoldable pub client_offerings :
      Json OfferingPage → Uuid → OfferingFilter → PageIterator W Offering
  unfolding list_client_offerings page_parts
  client_offerings json client_id filter = new_page_iterator λ w cursor limit.
      let r = list_client_offerings json client_id filter cursor (pos limit) w in
      (page_parts r.0, r.1)

  -- (c *Client) GetClientOffering
  unfoldable pub get_client_offering : Json Offering → Uuid → Uuid → Act W (Result Offering)
  unfolding fetched
  get_client_offering json client_id offering_id =
      fetched env c
        (codes "/v1/clients/"
          ++ uuid_string client_id
          ++ codes "/offerings/"
          ++ uuid_string offering_id)
        [] json

  -- (c *Client) ListOrders
  unfoldable pub list_orders : Json (List Order) → Uuid → ℤ → Act W (Result (List Order))
  unfolding fetched
  list_orders json cursor limit =
      fetched env c (codes "/v1/orders") (page_query uuid_string cursor limit) json

  -- (c *Client) Orders
  unfoldable pub orders : Json (List Order) → Iterator W Order
  unfolding list_orders
  orders json =
      new_iterator (λ w cursor limit. list_orders json cursor (pos limit) w) (λ (r : Order). r.id)

  -- (c *Client) GetOrder
  unfoldable pub get_order : Json Order → Uuid → Act W (Result Order)
  unfolding fetched
  get_order json order_id = fetched env c (codes "/v1/orders/" ++ uuid_string order_id) [] json

  -- (c *Client) ListExploreClients
  unfoldable pub list_explore_clients :
      Json (List CatalogClient) → Bytes → Bytes → Uuid → ℤ → Act W (Result (List CatalogClient))
  unfolding fetched
  list_explore_clients json query category cursor limit =
      fetched env c (codes "/v1/explore/clients")
        (set_text (codes "category") category
          (set_text (codes "q") query (page_query uuid_string cursor limit)))
        json

  -- (c *Client) ExploreClients
  unfoldable pub explore_clients :
      Json (List CatalogClient) → Bytes → Bytes → Iterator W CatalogClient
  unfolding list_explore_clients
  explore_clients json query category =
      new_iterator (λ w cursor limit. list_explore_clients json query category cursor (pos limit) w)
        (λ (r : CatalogClient). r.id)

  -- (c *Client) ExploreClient
  unfoldable pub explore_client :
      Json ExploreClientDetail → Uuid → Act W (Result ExploreClientDetail)
  unfolding fetched
  explore_client json client_id =
      fetched env c (codes "/v1/explore/clients/" ++ uuid_string client_id) [] json

  -- (c *Client) ExploreOffering
  unfoldable pub explore_offering :
      Json ExploreOfferingDetail → Uuid → Act W (Result ExploreOfferingDetail)
  unfolding fetched
  explore_offering json offering_id =
      fetched env c (codes "/v1/explore/offerings/" ++ uuid_string offering_id) [] json
