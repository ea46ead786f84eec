-- ===== src/Errors/Sentinel.antt =====
-- The sentinel errors of errors.go, pagination.go and webhook.go. Each is one `errors.New`, so two of
-- them are the same error exactly when they are the same constructor.
use walletd_go.Base.{String, Bool, true, false, ◌≡◌, refl}

pub data Sentinel : Type 0 where
  bad_request unauthorized forbidden not_found : Sentinel
  conflict unprocessable rate_limited server : Sentinel
  transport unexpected_status unauthenticated unknown_tenant : Sentinel
  tenant_suspended insufficient_scope user_token_required consumer_token_required : Sentinel
  platform_scope_only not_client_member invalid_request self_transfer : Sentinel
  idempotency_key_reuse user_exists merchant_exists rule_exists : Sentinel
  insufficient_funds insufficient_points tier_limit_exceeded no_conversion_rule : Sentinel
  nothing_to_pay not_an_item not_a_plan user_not_business : Sentinel
  credit_limit_below_balance user_not_found sender_not_found recipient_not_found : Sentinel
  payer_not_found merchant_not_found payment_not_found topup_not_found : Sentinel
  subscription_not_found client_not_found offering_not_found rule_not_found : Sentinel
  event_not_found tenant_not_found bulkhead_full gateway_unreachable : Sentinel
  auth_unavailable reporting_timeout org_provisioning_unavailable internal : Sentinel
  pagination_stalled signature_malformed signature_stale signature_mismatch : Sentinel

-- The text given to `errors.New`.
pub text : Sentinel → String
text bad_request = "bad request"
text unauthorized = "unauthorized"
text forbidden = "forbidden"
text not_found = "not found"
text conflict = "conflict"
text unprocessable = "refused by a money rule"
text rate_limited = "rate limited"
text server = "server error"
text transport = "transport failure"
text unexpected_status = "unexpected HTTP status"
text unauthenticated = "unauthenticated"
text unknown_tenant = "unknown tenant"
text tenant_suspended = "tenant suspended"
text insufficient_scope = "insufficient scope"
text user_token_required = "user token required"
text consumer_token_required = "consumer token required"
text platform_scope_only = "platform scope only"
text not_client_member = "not a member of that client"
text invalid_request = "invalid request"
text self_transfer = "sender and recipient are the same wallet"
text idempotency_key_reuse = "idempotency key reused with different parameters"
text user_exists = "user already exists"
text merchant_exists = "merchant already exists"
text rule_exists = "rule already exists"
text insufficient_funds = "insufficient funds"
text insufficient_points = "insufficient points"
text tier_limit_exceeded = "tier limit exceeded"
text no_conversion_rule = "no active conversion rule"
text nothing_to_pay = "nothing to pay"
text not_an_item = "offering is not a one-off item"
text not_a_plan = "offering is not a plan"
text user_not_business = "user is not a business"
text credit_limit_below_balance = "credit limit below drawn balance"
text user_not_found = "user not found"
text sender_not_found = "sender not found"
text recipient_not_found = "recipient not found"
text payer_not_found = "payer not found"
text merchant_not_found = "merchant not found"
text payment_not_found = "payment not found"
text topup_not_found = "topup not found"
text subscription_not_found = "subscription not found"
text client_not_found = "client not found"
text offering_not_found = "offering not found"
text rule_not_found = "rule not found"
text event_not_found = "event not found"
text tenant_not_found = "tenant not found"
text bulkhead_full = "gateway concurrency compartment full"
text gateway_unreachable = "payment gateway unreachable"
text auth_unavailable = "credential service unavailable"
text reporting_timeout = "reporting window too wide"
text org_provisioning_unavailable = "identity provisioning unavailable"
text internal = "internal error"
text pagination_stalled = "pagination stalled: the page did not advance the cursor"
text signature_malformed = "malformed signature header"
text signature_stale = "signature timestamp outside tolerance"
text signature_mismatch = "signature does not match"

pub Sentinel-discrete : Discrete Sentinel
Sentinel-discrete = hlevel

-- `==` on two sentinels, which compares the pointers.
unfoldable pub same : Sentinel → Sentinel → Bool
unfolding Sentinel-discrete
same s t = elim (Sentinel-discrete s t) [ yes _ ↦ true | no _ ↦ false ]

pub same→eq : (s t : Sentinel) → same s t ≡ true → s ≡ t
unfolding same
same→eq s t h = decided (Sentinel-discrete s t) h
  where
    decided : (d : Dec (s ≡ t)) → (elim d [ yes _ ↦ true | no _ ↦ false ]) ≡ true → s ≡ t
    decided (yes e) _ = e
    decided (no _) h = cc

pub same_refl : (s : Sentinel) → same s s ≡ true
unfolding same
same_refl s = decided (Sentinel-discrete s s)
  where
    decided : (d : Dec (s ≡ s)) → (elim d [ yes _ ↦ true | no _ ↦ false ]) ≡ true
    decided (yes _) = refl
    decided (no n) = absurd (n refl)
