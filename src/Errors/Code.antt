-- ===== src/Errors/Code.antt =====
-- The documented problem codes of errors.go and the table `codeSentinels`.
use walletd_go.Base.{String, Option, none, some, List, [], ◌∷◌, if◌then◌else◌, str_eq}
use walletd_go.Errors.Sentinel.{Sentinel}

abbrev pub code_unauthenticated : String
code_unauthenticated = "unauthenticated"

abbrev pub code_unknown_tenant : String
code_unknown_tenant = "unknown_tenant"

abbrev pub code_tenant_suspended : String
code_tenant_suspended = "tenant_suspended"

abbrev pub code_insufficient_scope : String
code_insufficient_scope = "insufficient_scope"

abbrev pub code_forbidden : String
code_forbidden = "forbidden"

abbrev pub code_user_token_required : String
code_user_token_required = "user_token_required"

abbrev pub code_consumer_token_required : String
code_consumer_token_required = "consumer_token_required"

abbrev pub code_platform_scope_only : String
code_platform_scope_only = "platform_scope_only"

abbrev pub code_not_client_member : String
code_not_client_member = "not_client_member"

abbrev pub code_invalid_request : String
code_invalid_request = "invalid_request"

abbrev pub code_self_transfer : String
code_self_transfer = "self_transfer"

abbrev pub code_idempotency_key_reuse : String
code_idempotency_key_reuse = "idempotency_key_reuse"

abbrev pub code_user_exists : String
code_user_exists = "user_exists"

abbrev pub code_merchant_exists : String
code_merchant_exists = "merchant_exists"

abbrev pub code_rule_exists : String
code_rule_exists = "rule_exists"

abbrev pub code_insufficient_funds : String
code_insufficient_funds = "insufficient_funds"

abbrev pub code_insufficient_points : String
code_insufficient_points = "insufficient_points"

abbrev pub code_tier_limit_exceeded : String
code_tier_limit_exceeded = "tier_limit_exceeded"

abbrev pub code_no_conversion_rule : String
code_no_conversion_rule = "no_conversion_rule"

abbrev pub code_nothing_to_pay : String
code_nothing_to_pay = "nothing_to_pay"

abbrev pub code_not_an_item : String
code_not_an_item = "not_an_item"

abbrev pub code_not_a_plan : String
code_not_a_plan = "not_a_plan"

abbrev pub code_user_not_business : String
code_user_not_business = "user_not_business"

abbrev pub code_credit_limit_below_balance : String
code_credit_limit_below_balance = "credit_limit_below_balance"

abbrev pub code_user_not_found : String
code_user_not_found = "user_not_found"

abbrev pub code_sender_not_found : String
code_sender_not_found = "sender_not_found"

abbrev pub code_recipient_not_found : String
code_recipient_not_found = "recipient_not_found"

abbrev pub code_payer_not_found : String
code_payer_not_found = "payer_not_found"

abbrev pub code_merchant_not_found : String
code_merchant_not_found = "merchant_not_found"

abbrev pub code_payment_not_found : String
code_payment_not_found = "payment_not_found"

abbrev pub code_topup_not_found : String
code_topup_not_found = "topup_not_found"

abbrev pub code_subscription_not_found : String
code_subscription_not_found = "subscription_not_found"

abbrev pub code_client_not_found : String
code_client_not_found = "client_not_found"

abbrev pub code_offering_not_found : String
code_offering_not_found = "offering_not_found"

abbrev pub code_rule_not_found : String
code_rule_not_found = "rule_not_found"

abbrev pub code_event_not_found : String
code_event_not_found = "event_not_found"

abbrev pub code_tenant_not_found : String
code_tenant_not_found = "tenant_not_found"

abbrev pub code_rate_limited : String
code_rate_limited = "rate_limited"

abbrev pub code_bulkhead_full : String
code_bulkhead_full = "bulkhead_full"

abbrev pub code_gateway_unreachable : String
code_gateway_unreachable = "gateway_unreachable"

abbrev pub code_auth_unavailable : String
code_auth_unavailable = "auth_unavailable"

abbrev pub code_reporting_timeout : String
code_reporting_timeout = "reporting_timeout"

abbrev pub code_org_provisioning_unavailable : String
code_org_provisioning_unavailable = "org_provisioning_unavailable"

abbrev pub code_internal_error : String
code_internal_error = "internal_error"

-- A Go map with string keys, as the list of its entries.
module _ {ℓ} {V : Type ℓ} where
  unfoldable pub lookup : String → List (String × V) → Option V
  lookup k [] = none
  lookup k ((j, v) ∷ m) = if str_eq j k then some v else lookup k m

abbrev pub code_sentinels : List (String × Sentinel)
code_sentinels =
    (code_unauthenticated, Sentinel.unauthenticated)
    ∷ (code_unknown_tenant, Sentinel.unknown_tenant)
    ∷ (code_tenant_suspended, Sentinel.tenant_suspended)
    ∷ (code_insufficient_scope, Sentinel.insufficient_scope)
    ∷ (code_forbidden, Sentinel.forbidden)
    ∷ (code_user_token_required, Sentinel.user_token_required)
    ∷ (code_consumer_token_required, Sentinel.consumer_token_required)
    ∷ (code_platform_scope_only, Sentinel.platform_scope_only)
    ∷ (code_not_client_member, Sentinel.not_client_member)
    ∷ (code_invalid_request, Sentinel.invalid_request)
    ∷ (code_self_transfer, Sentinel.self_transfer)
    ∷ (code_idempotency_key_reuse, Sentinel.idempotency_key_reuse)
    ∷ (code_user_exists, Sentinel.user_exists)
    ∷ (code_merchant_exists, Sentinel.merchant_exists)
    ∷ (code_rule_exists, Sentinel.rule_exists)
    ∷ (code_insufficient_funds, Sentinel.insufficient_funds)
    ∷ (code_insufficient_points, Sentinel.insufficient_points)
    ∷ (code_tier_limit_exceeded, Sentinel.tier_limit_exceeded)
    ∷ (code_no_conversion_rule, Sentinel.no_conversion_rule)
    ∷ (code_nothing_to_pay, Sentinel.nothing_to_pay)
    ∷ (code_not_an_item, Sentinel.not_an_item)
    ∷ (code_not_a_plan, Sentinel.not_a_plan)
    ∷ (code_user_not_business, Sentinel.user_not_business)
    ∷ (code_credit_limit_below_balance, Sentinel.credit_limit_below_balance)
    ∷ (code_user_not_found, Sentinel.user_not_found)
    ∷ (code_sender_not_found, Sentinel.sender_not_found)
    ∷ (code_recipient_not_found, Sentinel.recipient_not_found)
    ∷ (code_payer_not_found, Sentinel.payer_not_found)
    ∷ (code_merchant_not_found, Sentinel.merchant_not_found)
    ∷ (code_payment_not_found, Sentinel.payment_not_found)
    ∷ (code_topup_not_found, Sentinel.topup_not_found)
    ∷ (code_subscription_not_found, Sentinel.subscription_not_found)
    ∷ (code_client_not_found, Sentinel.client_not_found)
    ∷ (code_offering_not_found, Sentinel.offering_not_found)
    ∷ (code_rule_not_found, Sentinel.rule_not_found)
    ∷ (code_event_not_found, Sentinel.event_not_found)
    ∷ (code_tenant_not_found, Sentinel.tenant_not_found)
    ∷ (code_rate_limited, Sentinel.rate_limited)
    ∷ (code_bulkhead_full, Sentinel.bulkhead_full)
    ∷ (code_gateway_unreachable, Sentinel.gateway_unreachable)
    ∷ (code_auth_unavailable, Sentinel.auth_unavailable)
    ∷ (code_reporting_timeout, Sentinel.reporting_timeout)
    ∷ (code_org_provisioning_unavailable, Sentinel.org_provisioning_unavailable)
    ∷ (code_internal_error, Sentinel.internal)
    ∷ []
