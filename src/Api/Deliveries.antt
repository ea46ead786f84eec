-- ===== src/Api/Deliveries.antt =====
-- webhooks_api.go: the endpoints, their events and the attempts to deliver them.
use walletd_go.Base.{
  Option, none, some, List, [], ◌++◌, leb_ℤ, ◌&&◌, if◌then◌else◌, ℤ, pos, Bytes, codes,
}
use walletd_go.Errors.Result.{Result}
use walletd_go.Uuid.{Uuid}
use walletd_go.Types.Instant.{Instant}
use walletd_go.Pagination.Iterator.{Iterator, new_iterator}
use walletd_go.Types.Deliveries.{
  WebhookEndpoint, WebhookEvent, WebhookDelivery, CreateWebhookEndpointRequest,
}
use walletd_go.Client.Act.{Act}
use walletd_go.Client.World.{Env}
use walletd_go.Client.New.{Client}
use walletd_go.Api.Calls.{Json, fetched, posted}
use walletd_go.Api.Values.{Values, set}
use walletd_go.Api.Query.{page_query, set_text, set_limit, set_id}

-- `uuid_string` is `UUID.String`; each method takes the decoder of what it returns and the encoder of
-- what it sends.
module _ {W : Type 0} (env : Env W) (c : Client W) (uuid_string : Uuid → Bytes) where
  -- (c *Client) CreateWebhookEndpoint
  unfoldable pub create_webhook_endpoint :
      Json WebhookEndpoint
      → (CreateWebhookEndpointRequest → Result Bytes)
      → CreateWebhookEndpointRequest
      → Act W (Result WebhookEndpoint)
  unfolding posted
  create_webhook_endpoint json marshal req =
      posted env c (codes "/v1/webhook_endpoints") (some (marshal req)) json

  -- (c *Client) ListWebhookEndpoints
  unfoldable pub list_webhook_endpoints :
      Json (List WebhookEndpoint) → Act W (Result (List WebhookEndpoint))
  unfolding fetched
  list_webhook_endpoints json = fetched env c (codes "/v1/webhook_endpoints") ([]) json

  -- `q.Set("since", …)` unless the time is zero, which is the start of the year 1.
  unfoldable pub set_since : (Instant → Bytes) → Instant → Values → Values
  set_since format_time since q =
      if leb_ℤ since (pos 0) && leb_ℤ (pos 0) since
      then q
      else set (codes "since") (format_time since) q

  -- (c *Client) ListWebhookEvents, where `format_time` prints an instant in UTC as RFC3339Nano
  unfoldable pub list_webhook_events :
      (Instant → Bytes)
      → Json (List WebhookEvent)
      → Bytes
      → Instant
      → ℤ
      → Act W (Result (List WebhookEvent))
  unfolding fetched set_since
  list_webhook_events format_time json event_type since limit =
      fetched env c (codes "/v1/webhook_events")
        (set_limit limit (set_since format_time since (set_text (codes "type") event_type []))) json

  -- (c *Client) RedeliverWebhookEvent, where `json` reads the field `enqueued`
  unfoldable pub redeliver_webhook_event : Json ℤ → Uuid → Act W (Result ℤ)
  unfolding posted
  redeliver_webhook_event json event_id =
      posted env c (codes "/v1/webhook_events/" ++ uuid_string event_id ++ codes "/redeliver") none
        json

  -- (c *Client) ListWebhookDeliveries
  unfoldable pub list_webhook_deliveries :
      Json (List WebhookDelivery) → Option Uuid → Uuid → ℤ → Act W (Result (List WebhookDelivery))
  unfolding fetched
  list_webhook_deliveries json endpoint_id cursor limit =
      fetched env c (codes "/v1/webhook_deliveries")
        (set_id uuid_string (codes "endpoint_id") endpoint_id (page_query uuid_string cursor limit))
        json

  -- (c *Client) WebhookDeliveries
  unfoldable pub webhook_deliveries :
      Json (List WebhookDelivery) → Option Uuid → Iterator W WebhookDelivery
  unfolding list_webhook_deliveries
  webhook_deliveries json endpoint_id =
      new_iterator (λ w cursor limit. list_webhook_deliveries json endpoint_id cursor (pos limit) w)
        (λ (r : WebhookDelivery). r.id)
