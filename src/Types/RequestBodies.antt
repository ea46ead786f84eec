-- ===== src/Types/RequestBodies.antt =====
-- The request bodies of types.gen.go, by the operation that takes them.
use walletd_go.Types.Catalog.{
  CategoryInput, CreateOfferingRequest, CreateOrderRequest, StartCatalogImportMultipartBody,
  StockAdjustmentRequest, UpdateOfferingRequest, VariantInput,
}
use walletd_go.Types.Deliveries.{CreateWebhookEndpointRequest}
use walletd_go.Types.Ledger.{FundMarketingRequest, RunClientPayoutJsonBody}
use walletd_go.Types.Money.{
  CapturePaymentJsonBody, ConvertPointsJsonBody, CreatePaymentRequest, CreateRefundRequest,
  CreateSubscriptionRequest, CreateTopupRequest, CreateTransferRequest,
}
use walletd_go.Types.Operator.{CreateSupportAccessGrantRequest, CreateTenantRequest}
use walletd_go.Types.People.{CreateUserRequest, SetCreditLimitRequest}
use walletd_go.Types.Rewards.{ClientRewardRuleRequest, CreateRewardRuleRequest}
use walletd_go.Types.Sellers.{
  ClientProfileRequest, CreateMerchantRequest, IssueMerchantApiKeyRequest, OnboardClientRequest,
  Pricing, SetClientCommissionRequest, SetTierLimitsRequest, SetUserTierJsonBody,
  UpdateFeePlanRequest,
}

abbrev pub OnboardClientJsonRequestBody : Type 0
OnboardClientJsonRequestBody = OnboardClientRequest

abbrev pub IssueMerchantApiKeyJsonRequestBody : Type 0
IssueMerchantApiKeyJsonRequestBody = IssueMerchantApiKeyRequest

abbrev pub CreateCategoryJsonRequestBody : Type 0
CreateCategoryJsonRequestBody = CategoryInput

abbrev pub UpdateCategoryJsonRequestBody : Type 0
UpdateCategoryJsonRequestBody = CategoryInput

abbrev pub SetClientCommissionJsonRequestBody : Type 0
SetClientCommissionJsonRequestBody = SetClientCommissionRequest

abbrev pub StartCatalogImportMultipartRequestBody : Type 0
StartCatalogImportMultipartRequestBody = StartCatalogImportMultipartBody

abbrev pub FundClientMarketingJsonRequestBody : Type 0
FundClientMarketingJsonRequestBody = FundMarketingRequest

abbrev pub CreateOfferingJsonRequestBody : Type 0
CreateOfferingJsonRequestBody = CreateOfferingRequest

abbrev pub UpdateOfferingJsonRequestBody : Type 0
UpdateOfferingJsonRequestBody = UpdateOfferingRequest

abbrev pub AddVariantJsonRequestBody : Type 0
AddVariantJsonRequestBody = VariantInput

abbrev pub UpdateVariantJsonRequestBody : Type 0
UpdateVariantJsonRequestBody = VariantInput

abbrev pub AdjustStockJsonRequestBody : Type 0
AdjustStockJsonRequestBody = StockAdjustmentRequest

abbrev pub RunClientPayoutJsonRequestBody : Type 0
RunClientPayoutJsonRequestBody = RunClientPayoutJsonBody

abbrev pub SetClientPricingJsonRequestBody : Type 0
SetClientPricingJsonRequestBody = Pricing

abbrev pub UpdateClientProfileJsonRequestBody : Type 0
UpdateClientProfileJsonRequestBody = ClientProfileRequest

abbrev pub CreateClientRewardRuleJsonRequestBody : Type 0
CreateClientRewardRuleJsonRequestBody = ClientRewardRuleRequest

abbrev pub CreateMerchantWebhookEndpointJsonRequestBody : Type 0
CreateMerchantWebhookEndpointJsonRequestBody = CreateWebhookEndpointRequest

abbrev pub UpdateFeePlanJsonRequestBody : Type 0
UpdateFeePlanJsonRequestBody = UpdateFeePlanRequest

abbrev pub CreateMerchantJsonRequestBody : Type 0
CreateMerchantJsonRequestBody = CreateMerchantRequest

abbrev pub CreateOrderJsonRequestBody : Type 0
CreateOrderJsonRequestBody = CreateOrderRequest

abbrev pub CreatePaymentJsonRequestBody : Type 0
CreatePaymentJsonRequestBody = CreatePaymentRequest

abbrev pub CapturePaymentJsonRequestBody : Type 0
CapturePaymentJsonRequestBody = CapturePaymentJsonBody

abbrev pub CreateRefundJsonRequestBody : Type 0
CreateRefundJsonRequestBody = CreateRefundRequest

abbrev pub CreateRewardRuleJsonRequestBody : Type 0
CreateRewardRuleJsonRequestBody = CreateRewardRuleRequest

abbrev pub ConvertPointsJsonRequestBody : Type 0
ConvertPointsJsonRequestBody = ConvertPointsJsonBody

abbrev pub CreateSubscriptionJsonRequestBody : Type 0
CreateSubscriptionJsonRequestBody = CreateSubscriptionRequest

abbrev pub CreateSupportAccessGrantJsonRequestBody : Type 0
CreateSupportAccessGrantJsonRequestBody = CreateSupportAccessGrantRequest

abbrev pub CreateTenantJsonRequestBody : Type 0
CreateTenantJsonRequestBody = CreateTenantRequest

abbrev pub SetTierLimitsJsonRequestBody : Type 0
SetTierLimitsJsonRequestBody = SetTierLimitsRequest

abbrev pub CreateTopupJsonRequestBody : Type 0
CreateTopupJsonRequestBody = CreateTopupRequest

abbrev pub CreateTransferJsonRequestBody : Type 0
CreateTransferJsonRequestBody = CreateTransferRequest

abbrev pub CreateUserJsonRequestBody : Type 0
CreateUserJsonRequestBody = CreateUserRequest

abbrev pub SetUserCreditLimitJsonRequestBody : Type 0
SetUserCreditLimitJsonRequestBody = SetCreditLimitRequest

abbrev pub SetUserTierJsonRequestBody : Type 0
SetUserTierJsonRequestBody = SetUserTierJsonBody

abbrev pub CreateWebhookEndpointJsonRequestBody : Type 0
CreateWebhookEndpointJsonRequestBody = CreateWebhookEndpointRequest
