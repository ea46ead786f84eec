-- ===== src/Types/Values.antt =====
-- The first half of the enums of types.gen.go: the constants, and the method Valid. An enum is a string.
use walletd_go.Base.{Bool, true, false, List, [], ◌∷◌, if◌then◌else◌, beq, codes}
use walletd_go.Types.Names.{
  CatalogClientStatus, CatalogImportRowAction, CatalogImportStatus, ClientRewardRuleRequestKind,
  CommissionMode, CreateOfferingRequestInterval, CreateOfferingRequestKind,
  CreatePaymentRequestMode, CreateRewardRuleRequestKind, EntryDirection, HealthStatus,
  InventoryMovementKind, IssueMerchantApiKeyRequestEnv, LedgerMetricsBucket, MarkupKind,
  MerchantApiKeyEnv, MerchantApiKeyStatus, OfferingInterval, OfferingKind,
}

abbrev pub catalog_client_status_values : List CatalogClientStatus
catalog_client_status_values = codes "active" ∷ codes "pending" ∷ codes "suspended" ∷ []

unfoldable pub catalog_client_status_valid : CatalogClientStatus → Bool
catalog_client_status_valid e =
    if beq e (codes "active")
    then true
    else if beq e (codes "pending")
    then true
    else if beq e (codes "suspended")
    then true
    else false

abbrev pub catalog_import_status_values : List CatalogImportStatus
catalog_import_status_values =
    codes "canceled"
    ∷ codes "committing"
    ∷ codes "done"
    ∷ codes "failed"
    ∷ codes "ready"
    ∷ codes "validating"
    ∷ []

unfoldable pub catalog_import_status_valid : CatalogImportStatus → Bool
catalog_import_status_valid e =
    if beq e (codes "canceled")
    then true
    else if beq e (codes "committing")
    then true
    else if beq e (codes "done")
    then true
    else if beq e (codes "failed")
    then true
    else if beq e (codes "ready")
    then true
    else if beq e (codes "validating")
    then true
    else false

abbrev pub catalog_import_row_action_values : List CatalogImportRowAction
catalog_import_row_action_values = codes "create" ∷ codes "error" ∷ codes "update" ∷ []

unfoldable pub catalog_import_row_action_valid : CatalogImportRowAction → Bool
catalog_import_row_action_valid e =
    if beq e (codes "create")
    then true
    else if beq e (codes "error")
    then true
    else if beq e (codes "update")
    then true
    else false

abbrev pub client_reward_rule_request_kind_values : List ClientRewardRuleRequestKind
client_reward_rule_request_kind_values = codes "accrual" ∷ codes "cashback" ∷ []

unfoldable pub client_reward_rule_request_kind_valid : ClientRewardRuleRequestKind → Bool
client_reward_rule_request_kind_valid e =
    if beq e (codes "accrual") then true else if beq e (codes "cashback") then true else false

abbrev pub commission_mode_values : List CommissionMode
commission_mode_values = codes "add" ∷ codes "deduct" ∷ []

unfoldable pub commission_mode_valid : CommissionMode → Bool
commission_mode_valid e =
    if beq e (codes "add") then true else if beq e (codes "deduct") then true else false

abbrev pub create_offering_request_interval_values : List CreateOfferingRequestInterval
create_offering_request_interval_values = codes "monthly" ∷ codes "weekly" ∷ []

unfoldable pub create_offering_request_interval_valid : CreateOfferingRequestInterval → Bool
create_offering_request_interval_valid e =
    if beq e (codes "monthly") then true else if beq e (codes "weekly") then true else false

abbrev pub create_offering_request_kind_values : List CreateOfferingRequestKind
create_offering_request_kind_values = codes "item" ∷ codes "plan" ∷ []

unfoldable pub create_offering_request_kind_valid : CreateOfferingRequestKind → Bool
create_offering_request_kind_valid e =
    if beq e (codes "item") then true else if beq e (codes "plan") then true else false

abbrev pub create_payment_request_mode_values : List CreatePaymentRequestMode
create_payment_request_mode_values = codes "authorize" ∷ codes "instant" ∷ []

unfoldable pub create_payment_request_mode_valid : CreatePaymentRequestMode → Bool
create_payment_request_mode_valid e =
    if beq e (codes "authorize") then true else if beq e (codes "instant") then true else false

abbrev pub create_reward_rule_request_kind_values : List CreateRewardRuleRequestKind
create_reward_rule_request_kind_values =
    codes "accrual" ∷ codes "cashback" ∷ codes "conversion" ∷ []

unfoldable pub create_reward_rule_request_kind_valid : CreateRewardRuleRequestKind → Bool
create_reward_rule_request_kind_valid e =
    if beq e (codes "accrual")
    then true
    else if beq e (codes "cashback")
    then true
    else if beq e (codes "conversion")
    then true
    else false

abbrev pub entry_direction_values : List EntryDirection
entry_direction_values = codes "credit" ∷ codes "debit" ∷ []

unfoldable pub entry_direction_valid : EntryDirection → Bool
entry_direction_valid e =
    if beq e (codes "credit") then true else if beq e (codes "debit") then true else false

abbrev pub health_status_values : List HealthStatus
health_status_values = codes "ok" ∷ []

unfoldable pub health_status_valid : HealthStatus → Bool
health_status_valid e = if beq e (codes "ok") then true else false

abbrev pub inventory_movement_kind_values : List InventoryMovementKind
inventory_movement_kind_values =
    codes "adjustment"
    ∷ codes "import"
    ∷ codes "release"
    ∷ codes "reservation"
    ∷ codes "restock"
    ∷ codes "sale"
    ∷ []

unfoldable pub inventory_movement_kind_valid : InventoryMovementKind → Bool
inventory_movement_kind_valid e =
    if beq e (codes "adjustment")
    then true
    else if beq e (codes "import")
    then true
    else if beq e (codes "release")
    then true
    else if beq e (codes "reservation")
    then true
    else if beq e (codes "restock")
    then true
    else if beq e (codes "sale")
    then true
    else false

abbrev pub issue_merchant_api_key_request_env_values : List IssueMerchantApiKeyRequestEnv
issue_merchant_api_key_request_env_values = codes "live" ∷ codes "sandbox" ∷ []

unfoldable pub issue_merchant_api_key_request_env_valid : IssueMerchantApiKeyRequestEnv → Bool
issue_merchant_api_key_request_env_valid e =
    if beq e (codes "live") then true else if beq e (codes "sandbox") then true else false

abbrev pub ledger_metrics_bucket_values : List LedgerMetricsBucket
ledger_metrics_bucket_values = codes "day" ∷ codes "hour" ∷ []

unfoldable pub ledger_metrics_bucket_valid : LedgerMetricsBucket → Bool
ledger_metrics_bucket_valid e =
    if beq e (codes "day") then true else if beq e (codes "hour") then true else false

abbrev pub markup_kind_values : List MarkupKind
markup_kind_values = codes "fixed" ∷ codes "percent" ∷ []

unfoldable pub markup_kind_valid : MarkupKind → Bool
markup_kind_valid e =
    if beq e (codes "fixed") then true else if beq e (codes "percent") then true else false

abbrev pub merchant_api_key_env_values : List MerchantApiKeyEnv
merchant_api_key_env_values = codes "live" ∷ codes "sandbox" ∷ []

unfoldable pub merchant_api_key_env_valid : MerchantApiKeyEnv → Bool
merchant_api_key_env_valid e =
    if beq e (codes "live") then true else if beq e (codes "sandbox") then true else false

abbrev pub merchant_api_key_status_values : List MerchantApiKeyStatus
merchant_api_key_status_values = codes "active" ∷ codes "revoked" ∷ []

unfoldable pub merchant_api_key_status_valid : MerchantApiKeyStatus → Bool
merchant_api_key_status_valid e =
    if beq e (codes "active") then true else if beq e (codes "revoked") then true else false

abbrev pub offering_interval_values : List OfferingInterval
offering_interval_values = codes "monthly" ∷ codes "weekly" ∷ []

unfoldable pub offering_interval_valid : OfferingInterval → Bool
offering_interval_valid e =
    if beq e (codes "monthly") then true else if beq e (codes "weekly") then true else false

abbrev pub offering_kind_values : List OfferingKind
offering_kind_values = codes "item" ∷ codes "plan" ∷ []

unfoldable pub offering_kind_valid : OfferingKind → Bool
offering_kind_valid e =
    if beq e (codes "item") then true else if beq e (codes "plan") then true else false
