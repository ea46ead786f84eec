-- ===== src/Types/ParameterValues.antt =====
-- The enums of types.gen.go that query parameters take: the constants, and the method Valid. An enum is a
-- string.
use walletd_go.Base.{Bool, true, false, List, [], ◌∷◌, if◌then◌else◌, beq, codes}
use walletd_go.Types.Names.{
  GetLedgerMetricsParamsWindow, ListCatalogImportRowsParamsAction, ListClientOfferingsParamsStatus,
  ListClientOrdersParamsStatus,
}

abbrev pub list_catalog_import_rows_params_action_values : List ListCatalogImportRowsParamsAction
list_catalog_import_rows_params_action_values = codes "create" ∷ codes "error" ∷ codes "update" ∷ []

unfoldable pub list_catalog_import_rows_params_action_valid :
    ListCatalogImportRowsParamsAction → Bool
list_catalog_import_rows_params_action_valid e =
    if beq e (codes "create")
    then true
    else if beq e (codes "error")
    then true
    else if beq e (codes "update")
    then true
    else false

abbrev pub list_client_offerings_params_status_values : List ListClientOfferingsParamsStatus
list_client_offerings_params_status_values =
    codes "archived" ∷ codes "draft" ∷ codes "published" ∷ []

unfoldable pub list_client_offerings_params_status_valid : ListClientOfferingsParamsStatus → Bool
list_client_offerings_params_status_valid e =
    if beq e (codes "archived")
    then true
    else if beq e (codes "draft")
    then true
    else if beq e (codes "published")
    then true
    else false

abbrev pub list_client_orders_params_status_values : List ListClientOrdersParamsStatus
list_client_orders_params_status_values =
    codes "canceled" ∷ codes "expired" ∷ codes "open" ∷ codes "paid" ∷ codes "paying" ∷ []

unfoldable pub list_client_orders_params_status_valid : ListClientOrdersParamsStatus → Bool
list_client_orders_params_status_valid e =
    if beq e (codes "canceled")
    then true
    else if beq e (codes "expired")
    then true
    else if beq e (codes "open")
    then true
    else if beq e (codes "paid")
    then true
    else if beq e (codes "paying")
    then true
    else false

abbrev pub get_ledger_metrics_params_window_values : List GetLedgerMetricsParamsWindow
get_ledger_metrics_params_window_values = codes "24h" ∷ codes "30d" ∷ codes "7d" ∷ codes "90d" ∷ []

unfoldable pub get_ledger_metrics_params_window_valid : GetLedgerMetricsParamsWindow → Bool
get_ledger_metrics_params_window_valid e =
    if beq e (codes "24h")
    then true
    else if beq e (codes "30d")
    then true
    else if beq e (codes "7d")
    then true
    else if beq e (codes "90d")
    then true
    else false
