-- ===== src/Types/Enums.antt =====
-- The enums of types.gen.go: Valid against the constants.
use walletd_go.Base.{
  Bool, true, false, List, [], ◌∷◌, All, if◌then◌else◌, Bytes, beq, beq→eq, beq_refl, ◌≡◌, ◌↔◌, ◌⊎◌,
  inl, inr, refl, Bool-cases,
}
use walletd_go.Types.Values.{
  catalog_client_status_values, catalog_client_status_valid, catalog_import_status_values,
  catalog_import_status_valid, catalog_import_row_action_values, catalog_import_row_action_valid,
  client_reward_rule_request_kind_values, client_reward_rule_request_kind_valid,
  commission_mode_values, commission_mode_valid, create_offering_request_interval_values,
  create_offering_request_interval_valid, create_offering_request_kind_values,
  create_offering_request_kind_valid, create_payment_request_mode_values,
  create_payment_request_mode_valid, create_reward_rule_request_kind_values,
  create_reward_rule_request_kind_valid, entry_direction_values, entry_direction_valid,
  health_status_values, health_status_valid, inventory_movement_kind_values,
  inventory_movement_kind_valid, issue_merchant_api_key_request_env_values,
  issue_merchant_api_key_request_env_valid, ledger_metrics_bucket_values,
  ledger_metrics_bucket_valid, markup_kind_values, markup_kind_valid, merchant_api_key_env_values,
  merchant_api_key_env_valid, merchant_api_key_status_values, merchant_api_key_status_valid,
  offering_interval_values, offering_interval_valid, offering_kind_values, offering_kind_valid,
}
use walletd_go.Types.MoreValues.{
  offering_status_values, offering_status_valid, order_status_values, order_status_valid,
  payment_status_values, payment_status_valid, payout_status_values, payout_status_valid,
  price_change_source_values, price_change_source_valid, statement_entry_direction_values,
  statement_entry_direction_valid, subscription_interval_values, subscription_interval_valid,
  subscription_status_values, subscription_status_valid, topup_status_values, topup_status_valid,
  topup_method_flow_values, topup_method_flow_valid, topup_next_action_kind_values,
  topup_next_action_kind_valid, user_kind_values, user_kind_valid, variant_pricing_mode_values,
  variant_pricing_mode_valid, variant_status_values, variant_status_valid,
  variant_input_pricing_mode_values, variant_input_pricing_mode_valid,
}
use walletd_go.Types.ParameterValues.{
  list_catalog_import_rows_params_action_values, list_catalog_import_rows_params_action_valid,
  list_client_offerings_params_status_values, list_client_offerings_params_status_valid,
  list_client_orders_params_status_values, list_client_orders_params_status_valid,
  get_ledger_metrics_params_window_values, get_ledger_metrics_params_window_valid,
}

-- One of the strings of a list.
abbrev pub IsOneOf : Bytes → List Bytes → Type 0
IsOneOf s [] = ⊥
IsOneOf s (t ∷ ts) = (s ≡ t) ⊎ IsOneOf s ts

-- An enum: its Valid and its constants.
pub record EnumType : Type 0 where
  pub valid : Bytes → Bool
  pub values : List Bytes

abbrev pub enums : List EnumType
enums =
    record { valid = catalog_client_status_valid; values = catalog_client_status_values }
    ∷ record { valid = catalog_import_status_valid; values = catalog_import_status_values }
    ∷ record { valid = catalog_import_row_action_valid; values = catalog_import_row_action_values }
    ∷ record {
      valid = client_reward_rule_request_kind_valid;
      values = client_reward_rule_request_kind_values;
    }
    ∷ record { valid = commission_mode_valid; values = commission_mode_values }
    ∷ record {
      valid = create_offering_request_interval_valid;
      values = create_offering_request_interval_values;
    }
    ∷ record {
      valid = create_offering_request_kind_valid;
      values = create_offering_request_kind_values;
    }
    ∷ record {
      valid = create_payment_request_mode_valid;
      values = create_payment_request_mode_values;
    }
    ∷ record {
      valid = create_reward_rule_request_kind_valid;
      values = create_reward_rule_request_kind_values;
    }
    ∷ record { valid = entry_direction_valid; values = entry_direction_values }
    ∷ record { valid = health_status_valid; values = health_status_values }
    ∷ record { valid = inventory_movement_kind_valid; values = inventory_movement_kind_values }
    ∷ record {
      valid = issue_merchant_api_key_request_env_valid;
      values = issue_merchant_api_key_request_env_values;
    }
    ∷ record { valid = ledger_metrics_bucket_valid; values = ledger_metrics_bucket_values }
    ∷ record { valid = markup_kind_valid; values = markup_kind_values }
    ∷ record { valid = merchant_api_key_env_valid; values = merchant_api_key_env_values }
    ∷ record { valid = merchant_api_key_status_valid; values = merchant_api_key_status_values }
    ∷ record { valid = offering_interval_valid; values = offering_interval_values }
    ∷ record { valid = offering_kind_valid; values = offering_kind_values }
    ∷ record { valid = offering_status_valid; values = offering_status_values }
    ∷ record { valid = order_status_valid; values = order_status_values }
    ∷ record { valid = payment_status_valid; values = payment_status_values }
    ∷ record { valid = payout_status_valid; values = payout_status_values }
    ∷ record { valid = price_change_source_valid; values = price_change_source_values }
    ∷ record { valid = statement_entry_direction_valid; values = statement_entry_direction_values }
    ∷ record { valid = subscription_interval_valid; values = subscription_interval_values }
    ∷ record { valid = subscription_status_valid; values = subscription_status_values }
    ∷ record { valid = topup_status_valid; values = topup_status_values }
    ∷ record { valid = topup_method_flow_valid; values = topup_method_flow_values }
    ∷ record { valid = topup_next_action_kind_valid; values = topup_next_action_kind_values }
    ∷ record { valid = user_kind_valid; values = user_kind_values }
    ∷ record { valid = variant_pricing_mode_valid; values = variant_pricing_mode_values }
    ∷ record { valid = variant_status_valid; values = variant_status_values }
    ∷ record {
      valid = variant_input_pricing_mode_valid;
      values = variant_input_pricing_mode_values;
    }
    ∷ record {
      valid = list_catalog_import_rows_params_action_valid;
      values = list_catalog_import_rows_params_action_values;
    }
    ∷ record {
      valid = list_client_offerings_params_status_valid;
      values = list_client_offerings_params_status_values;
    }
    ∷ record {
      valid = list_client_orders_params_status_valid;
      values = list_client_orders_params_status_values;
    }
    ∷ record {
      valid = get_ledger_metrics_params_window_valid;
      values = get_ledger_metrics_params_window_values;
    }
    ∷ []

-- A search in a list, one test after the other.
search_in : Bytes → List Bytes → Bool
search_in s [] = false
search_in s (t ∷ ts) = let rest = search_in s ts in if beq s t then true else rest

search_in_iff : (s : Bytes) (ts : List Bytes) → (search_in s ts ≡ true) ↔ IsOneOf s ts
unfolding search_in
search_in_iff s [] = (λ e. cc, λ h. absurd h)
search_in_iff s (t ∷ ts) = elim (Bool-cases (beq s t)) [
  | inl e ↦ (λ h. inl (beq→eq s t e), λ h. rw e refl)
  | inr e ↦ (
    (λ h. inr ((search_in_iff s ts).0 (rw e at h))),
    λ h. elim h [
      | inl same ↦ rw same (rw (beq_refl t) refl)
      | inr later ↦ rw e ((search_in_iff s ts).1 later)
    ],
  )
]

searched_iff :
    (s : Bytes) (es : List EnumType)
    → All (λ (e : EnumType). (search_in s e.values ≡ true) ↔ IsOneOf s e.values) es
searched_iff s [] = tt
searched_iff s (e ∷ es) = (search_in_iff s e.values, searched_iff s es)

-- For each of the 38 enums, Valid accepts a string exactly if it is one of the constants of the enum: none
-- is left out of its switch, and no other string is in it.
pub valid_iff : (s : Bytes) → All (λ (e : EnumType). (e.valid s ≡ true) ↔ IsOneOf s e.values) enums
unfolding search_in catalog_client_status_valid catalog_import_status_valid
    catalog_import_row_action_valid client_reward_rule_request_kind_valid commission_mode_valid
    create_offering_request_interval_valid create_offering_request_kind_valid
    create_payment_request_mode_valid create_reward_rule_request_kind_valid entry_direction_valid
    health_status_valid inventory_movement_kind_valid issue_merchant_api_key_request_env_valid
    ledger_metrics_bucket_valid markup_kind_valid merchant_api_key_env_valid
    merchant_api_key_status_valid offering_interval_valid offering_kind_valid offering_status_valid
    order_status_valid payment_status_valid payout_status_valid price_change_source_valid
    statement_entry_direction_valid subscription_interval_valid subscription_status_valid
    topup_status_valid topup_method_flow_valid topup_next_action_kind_valid user_kind_valid
    variant_pricing_mode_valid variant_status_valid variant_input_pricing_mode_valid
    list_catalog_import_rows_params_action_valid list_client_offerings_params_status_valid
    list_client_orders_params_status_valid get_ledger_metrics_params_window_valid
valid_iff s = searched_iff s enums
