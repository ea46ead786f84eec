-- ===== src/Types/Parameters.antt =====
-- Models of types.gen.go: the query parameters and headers of the operations, as the generator declares them. No method of the client takes or
-- returns them yet. An enum is a string in Go, and so here;
-- a JSON value of no fixed type, and a file, is its bytes.
use walletd_go.Base.{ℤ, Bool, Option, Bytes}
use walletd_go.Uuid.{Uuid}
use walletd_go.Types.Instant.{Instant}
use walletd_go.Types.Names.{
  CatalogClientStatus, Cursor, GetLedgerMetricsParamsWindow, IdempotencyKeyHeader, Limit,
  ListCatalogImportRowsParamsAction, ListClientOfferingsParamsStatus, ListClientOrdersParamsStatus,
  SubscriptionStatus, TenantFilter,
}

pub record ListAuditLogParams : Type 0 where
  pub action : Option Bytes
  pub cursor : Option ℤ
  pub limit : Option Limit

pub record ListClientsParams : Type 0 where
  pub status : Option CatalogClientStatus
  pub limit : Option Limit

pub record ListCatalogImportsParams : Type 0 where
  pub cursor : Option Cursor
  pub limit : Option Limit

pub record ListCatalogImportRowsParams : Type 0 where
  pub action : Option ListCatalogImportRowsParamsAction
  pub after : Option ℤ
  pub limit : Option ℤ

pub record ListInventoryMovementsParams : Type 0 where
  pub variant_id : Option Uuid
  pub cursor : Option Cursor
  pub limit : Option Limit

pub record FundClientMarketingParams : Type 0 where
  pub idempotency_key_header : IdempotencyKeyHeader

pub record ListClientOfferingsParams : Type 0 where
  pub status : Option ListClientOfferingsParamsStatus
  pub category_id : Option Uuid
  pub q : Option Bytes
  pub low_stock : Option Bool
  pub cursor : Option Cursor
  pub limit : Option Limit

pub record ListClientOrdersParams : Type 0 where
  pub status : Option ListClientOrdersParamsStatus
  pub cursor : Option Cursor
  pub limit : Option Limit

pub record ListClientPayoutsParams : Type 0 where
  pub limit : Option Limit

pub record RunClientPayoutParams : Type 0 where
  pub idempotency_key_header : IdempotencyKeyHeader

pub record ListPriceHistoryParams : Type 0 where
  pub offering_id : Option Uuid
  pub cursor : Option Cursor
  pub limit : Option Limit

pub record ListClientSalesParams : Type 0 where
  pub cursor : Option Cursor
  pub limit : Option Limit

pub record ListMerchantWebhookDeliveriesParams : Type 0 where
  pub endpoint_id : Option Uuid
  pub cursor : Option Cursor
  pub limit : Option Limit

pub record ExploreClientsParams : Type 0 where
  pub q : Option Bytes
  pub category : Option Bytes
  pub cursor : Option Cursor
  pub limit : Option Limit

pub record PurchaseOfferingParams : Type 0 where
  pub idempotency_key_header : IdempotencyKeyHeader

pub record SubscribeOfferingParams : Type 0 where
  pub idempotency_key_header : IdempotencyKeyHeader

pub record GetLedgerMetricsParams : Type 0 where
  pub window : Option GetLedgerMetricsParamsWindow

pub record GetMerchantStatementParams : Type 0 where
  pub since : Option Instant
  pub limit : Option ℤ

pub record ListOrdersParams : Type 0 where
  pub cursor : Option Cursor
  pub limit : Option Limit

pub record CreateOrderParams : Type 0 where
  pub idempotency_key_header : IdempotencyKeyHeader

pub record CreatePaymentParams : Type 0 where
  pub idempotency_key_header : IdempotencyKeyHeader

pub record CapturePaymentParams : Type 0 where
  pub idempotency_key_header : IdempotencyKeyHeader

pub record ListPlatformClientsParams : Type 0 where
  pub tenant_id : Option TenantFilter
  pub status : Option CatalogClientStatus
  pub cursor : Option Cursor
  pub limit : Option Limit

pub record ListPlatformSubscriptionsParams : Type 0 where
  pub tenant_id : Option TenantFilter
  pub status : Option SubscriptionStatus
  pub cursor : Option Cursor
  pub limit : Option Limit

pub record ListPlatformTransactionsParams : Type 0 where
  pub tenant_id : Option TenantFilter
  pub kind : Option Bytes
  pub cursor : Option Cursor
  pub limit : Option Limit

pub record ListPlatformUsersParams : Type 0 where
  pub tenant_id : Option TenantFilter
  pub query : Option Bytes
  pub cursor : Option Cursor
  pub limit : Option Limit

pub record CreateRefundParams : Type 0 where
  pub idempotency_key_header : IdempotencyKeyHeader

pub record ConvertPointsParams : Type 0 where
  pub idempotency_key_header : IdempotencyKeyHeader

pub record ListSubscriptionsParams : Type 0 where
  pub user_id : Option Uuid
  pub status : Option SubscriptionStatus
  pub cursor : Option Cursor
  pub limit : Option Limit

pub record CreateSubscriptionParams : Type 0 where
  pub idempotency_key_header : IdempotencyKeyHeader

pub record ListSupportAccessGrantsParams : Type 0 where
  pub limit : Option Limit

pub record CreateTopupParams : Type 0 where
  pub idempotency_key_header : IdempotencyKeyHeader

pub record ListTransactionsParams : Type 0 where
  pub kind : Option Bytes
  pub cursor : Option Cursor
  pub limit : Option Limit

pub record CreateTransferParams : Type 0 where
  pub idempotency_key_header : IdempotencyKeyHeader

pub record ListUsersParams : Type 0 where
  pub query : Option Bytes
  pub cursor : Option Cursor
  pub limit : Option Limit

pub record ListUserRewardsParams : Type 0 where
  pub limit : Option ℤ

pub record ListUserTransactionsParams : Type 0 where
  pub cursor : Option Cursor
  pub limit : Option Limit

pub record ListWebhookDeliveriesParams : Type 0 where
  pub endpoint_id : Option Uuid
  pub cursor : Option Cursor
  pub limit : Option Limit

pub record ListWebhookEventsParams : Type 0 where
  pub kind : Option Bytes
  pub since : Option Instant
  pub limit : Option ℤ
