-- ===== src/Types/Names.antt =====
-- The named types of types.gen.go: the enums, which are strings, and the parameters of the operations.
use walletd_go.Base.{Bytes, ℤ}
use walletd_go.Uuid.{Uuid}

abbrev pub CatalogClientStatus : Type 0
CatalogClientStatus = Bytes

abbrev pub CatalogImportStatus : Type 0
CatalogImportStatus = Bytes

abbrev pub CatalogImportRowAction : Type 0
CatalogImportRowAction = Bytes

abbrev pub ClientRewardRuleRequestKind : Type 0
ClientRewardRuleRequestKind = Bytes

abbrev pub CommissionMode : Type 0
CommissionMode = Bytes

abbrev pub CreateOfferingRequestInterval : Type 0
CreateOfferingRequestInterval = Bytes

abbrev pub CreateOfferingRequestKind : Type 0
CreateOfferingRequestKind = Bytes

abbrev pub CreatePaymentRequestMode : Type 0
CreatePaymentRequestMode = Bytes

abbrev pub CreateRewardRuleRequestKind : Type 0
CreateRewardRuleRequestKind = Bytes

abbrev pub EntryDirection : Type 0
EntryDirection = Bytes

abbrev pub HealthStatus : Type 0
HealthStatus = Bytes

abbrev pub InventoryMovementKind : Type 0
InventoryMovementKind = Bytes

abbrev pub IssueMerchantApiKeyRequestEnv : Type 0
IssueMerchantApiKeyRequestEnv = Bytes

abbrev pub LedgerMetricsBucket : Type 0
LedgerMetricsBucket = Bytes

abbrev pub MarkupKind : Type 0
MarkupKind = Bytes

abbrev pub MerchantApiKeyEnv : Type 0
MerchantApiKeyEnv = Bytes

abbrev pub MerchantApiKeyStatus : Type 0
MerchantApiKeyStatus = Bytes

abbrev pub OfferingInterval : Type 0
OfferingInterval = Bytes

abbrev pub OfferingKind : Type 0
OfferingKind = Bytes

abbrev pub OfferingStatus : Type 0
OfferingStatus = Bytes

abbrev pub OrderStatus : Type 0
OrderStatus = Bytes

abbrev pub PaymentStatus : Type 0
PaymentStatus = Bytes

abbrev pub PayoutStatus : Type 0
PayoutStatus = Bytes

abbrev pub PriceChangeSource : Type 0
PriceChangeSource = Bytes

abbrev pub StatementEntryDirection : Type 0
StatementEntryDirection = Bytes

abbrev pub SubscriptionInterval : Type 0
SubscriptionInterval = Bytes

abbrev pub SubscriptionStatus : Type 0
SubscriptionStatus = Bytes

abbrev pub TopupStatus : Type 0
TopupStatus = Bytes

abbrev pub TopupMethodFlow : Type 0
TopupMethodFlow = Bytes

abbrev pub TopupNextActionKind : Type 0
TopupNextActionKind = Bytes

abbrev pub UserKind : Type 0
UserKind = Bytes

abbrev pub VariantPricingMode : Type 0
VariantPricingMode = Bytes

abbrev pub VariantStatus : Type 0
VariantStatus = Bytes

abbrev pub VariantInputPricingMode : Type 0
VariantInputPricingMode = Bytes

abbrev pub CategoryId : Type 0
CategoryId = Uuid

abbrev pub ClientId : Type 0
ClientId = Uuid

abbrev pub Cursor : Type 0
Cursor = Uuid

abbrev pub EndpointId : Type 0
EndpointId = Uuid

abbrev pub IdempotencyKeyHeader : Type 0
IdempotencyKeyHeader = Bytes

abbrev pub ImportId : Type 0
ImportId = Uuid

abbrev pub KeyId : Type 0
KeyId = Uuid

abbrev pub Limit : Type 0
Limit = ℤ

abbrev pub MerchantId : Type 0
MerchantId = Uuid

abbrev pub OfferingId : Type 0
OfferingId = Uuid

abbrev pub OrderId : Type 0
OrderId = Uuid

abbrev pub PaymentId : Type 0
PaymentId = Uuid

abbrev pub SubscriptionId : Type 0
SubscriptionId = Uuid

abbrev pub TenantFilter : Type 0
TenantFilter = Uuid

abbrev pub UserId : Type 0
UserId = Uuid

abbrev pub VariantId : Type 0
VariantId = Uuid

abbrev pub ListCatalogImportRowsParamsAction : Type 0
ListCatalogImportRowsParamsAction = Bytes

abbrev pub ListClientOfferingsParamsStatus : Type 0
ListClientOfferingsParamsStatus = Bytes

abbrev pub ListClientOrdersParamsStatus : Type 0
ListClientOrdersParamsStatus = Bytes

abbrev pub GetLedgerMetricsParamsWindow : Type 0
GetLedgerMetricsParamsWindow = Bytes
