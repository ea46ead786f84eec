-- ===== src/Types/Deliveries.antt =====
-- Models of types.gen.go that the methods of the client take or return. An enum is a string in Go,
-- and so here; an instant is its nanoseconds since the year 1.
use walletd_go.Base.{ℤ, List, Option, Bytes}
use walletd_go.Uuid.{Uuid}
use walletd_go.Types.Instant.{Instant}

pub record WebhookEndpoint : Type 0 where
  pub client_id : Option Uuid
  pub created_at : Instant
  pub event_filters : List Bytes
  pub id : Uuid
  pub secret : Option Bytes
  pub status : Bytes
  pub url : Bytes

pub record WebhookEvent : Type 0 where
  pub created_at : Instant
  pub objects : List (Bytes × Bytes)
  pub id : Uuid
  pub kind : Bytes

pub record WebhookDelivery : Type 0 where
  pub attempt : ℤ
  pub created_at : Instant
  pub endpoint_id : Uuid
  pub error : Option Bytes
  pub event_id : Uuid
  pub event_type : Bytes
  pub id : Uuid
  pub response_code : Option ℤ
  pub status : Bytes

pub record CreateWebhookEndpointRequest : Type 0 where
  pub event_filters : Option (List Bytes)
  pub url : Bytes
