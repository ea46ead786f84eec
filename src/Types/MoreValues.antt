-- ===== src/Types/MoreValues.antt =====
-- The other enums of types.gen.go that structs have: the constants, and the method Valid. An enum is a string.
use walletd_go.Base.{Bool, true, false, List, [], ◌∷◌, if◌then◌else◌, beq, codes}
use walletd_go.Types.Names.{
  OfferingStatus, OrderStatus, PaymentStatus, PayoutStatus, PriceChangeSource,
  StatementEntryDirection, SubscriptionInterval, SubscriptionStatus, TopupMethodFlow,
  TopupNextActionKind, TopupStatus, UserKind, VariantInputPricingMode, VariantPricingMode,
  VariantStatus,
}

abbrev pub offering_status_values : List OfferingStatus
offering_status_values = codes "archived" ∷ codes "draft" ∷ codes "published" ∷ []

unfoldable pub offering_status_valid : OfferingStatus → Bool
offering_status_valid e =
    if beq e (codes "archived")
    then true
    else if beq e (codes "draft")
    then true
    else if beq e (codes "published")
    then true
    else false

abbrev pub order_status_values : List OrderStatus
order_status_values =
    codes "canceled" ∷ codes "expired" ∷ codes "open" ∷ codes "paid" ∷ codes "paying" ∷ []

unfoldable pub order_status_valid : OrderStatus → Bool
order_status_valid e =
    if beq e (codes "canceled")
    then true
    else if beq e (codes "expired")
    then true
    else if beq e (codes "open")
    then true
    else if beq e (codes "paid")
    then true
    else if beq e (codes "paying")
    then true
    else false

abbrev pub payment_status_values : List PaymentStatus
payment_status_values =
    codes "captured" ∷ codes "expired" ∷ codes "requires_capture" ∷ codes "voided" ∷ []

unfoldable pub payment_status_valid : PaymentStatus → Bool
payment_status_valid e =
    if beq e (codes "captured")
    then true
    else if beq e (codes "expired")
    then true
    else if beq e (codes "requires_capture")
    then true
    else if beq e (codes "voided")
    then true
    else false

abbrev pub payout_status_values : List PayoutStatus
payout_status_values = codes "completed" ∷ codes "pending_transfer" ∷ []

unfoldable pub payout_status_valid : PayoutStatus → Bool
payout_status_valid e =
    if beq e (codes "completed")
    then true
    else if beq e (codes "pending_transfer")
    then true
    else false

abbrev pub price_change_source_values : List PriceChangeSource
price_change_source_values = codes "import" ∷ codes "manual" ∷ codes "markup" ∷ []

unfoldable pub price_change_source_valid : PriceChangeSource → Bool
price_change_source_valid e =
    if beq e (codes "import")
    then true
    else if beq e (codes "manual")
    then true
    else if beq e (codes "markup")
    then true
    else false

abbrev pub statement_entry_direction_values : List StatementEntryDirection
statement_entry_direction_values = codes "credit" ∷ codes "debit" ∷ []

unfoldable pub statement_entry_direction_valid : StatementEntryDirection → Bool
statement_entry_direction_valid e =
    if beq e (codes "credit") then true else if beq e (codes "debit") then true else false

abbrev pub subscription_interval_values : List SubscriptionInterval
subscription_interval_values = codes "monthly" ∷ codes "weekly" ∷ []

unfoldable pub subscription_interval_valid : SubscriptionInterval → Bool
subscription_interval_valid e =
    if beq e (codes "monthly") then true else if beq e (codes "weekly") then true else false

abbrev pub subscription_status_values : List SubscriptionStatus
subscription_status_values =
    codes "active" ∷ codes "canceled" ∷ codes "past_due" ∷ codes "paused" ∷ []

unfoldable pub subscription_status_valid : SubscriptionStatus → Bool
subscription_status_valid e =
    if beq e (codes "active")
    then true
    else if beq e (codes "canceled")
    then true
    else if beq e (codes "past_due")
    then true
    else if beq e (codes "paused")
    then true
    else false

abbrev pub topup_status_values : List TopupStatus
topup_status_values =
    codes "amount_mismatch"
    ∷ codes "created"
    ∷ codes "expired"
    ∷ codes "failed"
    ∷ codes "processing"
    ∷ codes "succeeded"
    ∷ []

unfoldable pub topup_status_valid : TopupStatus → Bool
topup_status_valid e =
    if beq e (codes "amount_mismatch")
    then true
    else if beq e (codes "created")
    then true
    else if beq e (codes "expired")
    then true
    else if beq e (codes "failed")
    then true
    else if beq e (codes "processing")
    then true
    else if beq e (codes "succeeded")
    then true
    else false

abbrev pub topup_method_flow_values : List TopupMethodFlow
topup_method_flow_values = codes "client_secret" ∷ codes "dev" ∷ codes "redirect" ∷ []

unfoldable pub topup_method_flow_valid : TopupMethodFlow → Bool
topup_method_flow_valid e =
    if beq e (codes "client_secret")
    then true
    else if beq e (codes "dev")
    then true
    else if beq e (codes "redirect")
    then true
    else false

abbrev pub topup_next_action_kind_values : List TopupNextActionKind
topup_next_action_kind_values = codes "client_secret" ∷ codes "redirect" ∷ []

unfoldable pub topup_next_action_kind_valid : TopupNextActionKind → Bool
topup_next_action_kind_valid e =
    if beq e (codes "client_secret") then true else if beq e (codes "redirect") then true else false

abbrev pub user_kind_values : List UserKind
user_kind_values = codes "business" ∷ codes "consumer" ∷ []

unfoldable pub user_kind_valid : UserKind → Bool
user_kind_valid e =
    if beq e (codes "business") then true else if beq e (codes "consumer") then true else false

abbrev pub variant_pricing_mode_values : List VariantPricingMode
variant_pricing_mode_values = codes "cost_plus" ∷ codes "manual" ∷ []

unfoldable pub variant_pricing_mode_valid : VariantPricingMode → Bool
variant_pricing_mode_valid e =
    if beq e (codes "cost_plus") then true else if beq e (codes "manual") then true else false

abbrev pub variant_status_values : List VariantStatus
variant_status_values = codes "active" ∷ codes "archived" ∷ []

unfoldable pub variant_status_valid : VariantStatus → Bool
variant_status_valid e =
    if beq e (codes "active") then true else if beq e (codes "archived") then true else false

abbrev pub variant_input_pricing_mode_values : List VariantInputPricingMode
variant_input_pricing_mode_values = codes "cost_plus" ∷ codes "manual" ∷ []

unfoldable pub variant_input_pricing_mode_valid : VariantInputPricingMode → Bool
variant_input_pricing_mode_valid e =
    if beq e (codes "cost_plus") then true else if beq e (codes "manual") then true else false
