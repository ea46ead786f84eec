-- ===== src/Types/Ledger.antt =====
-- Models of types.gen.go: the ledger, its summaries and its statements. No method of the client takes or
-- returns them yet. An enum is a string in Go, and so here;
-- a JSON value of no fixed type, and a file, is its bytes.
use walletd_go.Base.{ℤ, Bool, List, Option, Bytes}
use walletd_go.Uuid.{Uuid}
use walletd_go.Types.Instant.{Instant}
use walletd_go.Types.Sellers.{FeePlan, MerchantVolume}
use walletd_go.Types.Names.{LedgerMetricsBucket, PayoutStatus, StatementEntryDirection}

pub record ClientSale : Type 0 where
  pub amount : ℤ
  pub commission : ℤ
  pub created_at : Instant
  pub fee : ℤ
  pub net : ℤ
  pub offering_id : Option Uuid
  pub order_id : Option Uuid
  pub payment_id : Uuid
  pub refunded : ℤ
  pub status : Bytes
  pub title : Option Bytes

pub record ClientSalesSummary : Type 0 where
  pub commission : ℤ
  pub fees : ℤ
  pub gross : ℤ
  pub net : ℤ
  pub refunded : ℤ
  pub sales : ℤ
  pub subscribers : ℤ

pub record ClientSales : Type 0 where
  pub sales : List ClientSale
  pub summary : ClientSalesSummary

pub record FlowRow : Type 0 where
  pub amount : ℤ
  pub commodity : Bytes
  pub count : ℤ
  pub previous_amount : ℤ
  pub previous_count : ℤ
  pub kind : Bytes

pub record FundMarketingRequest : Type 0 where
  pub amount : ℤ

pub record FundMarketingResult : Type 0 where
  pub amount : ℤ
  pub txn_id : Uuid

pub record OperationsSummary : Type 0 where
  pub awaiting_capture : ℤ
  pub awaiting_capture_amount : ℤ
  pub holds_expiring24h : ℤ
  pub payouts : ℤ
  pub payouts_amount : ℤ
  pub refunds : ℤ
  pub refunds_amount : ℤ
  pub subscriptions_active : ℤ
  pub subscriptions_due30d_amount : ℤ
  pub subscriptions_mrr : ℤ
  pub subscriptions_past_due : ℤ
  pub subscriptions_past_due_amount : ℤ
  pub topup_success_bps : ℤ
  pub topups_failed : ℤ
  pub topups_pending : ℤ
  pub topups_succeeded : ℤ
  pub webhook_failures : ℤ

pub record PositionSummary : Type 0 where
  pub active_wallets : ℤ
  pub credit_extended : ℤ
  pub credit_granted : ℤ
  pub fees : ℤ
  pub funded_wallets : ℤ
  pub funds_held : ℤ
  pub marketing_drawn : ℤ
  pub marketing_pots : ℤ
  pub merchant_settlement : ℤ
  pub points_outstanding : ℤ
  pub suspense : ℤ
  pub treasury : ℤ
  pub user_cash : ℤ

pub record ReconciliationRow : Type 0 where
  pub accounts : ℤ
  pub balanced : Bool
  pub commodity : Bytes
  pub net : ℤ

pub record RevenueSummary : Type 0 where
  pub fees_earned : ℤ
  pub money_in : ℤ
  pub money_out : ℤ
  pub payment_volume : ℤ
  pub points_issued : ℤ
  pub points_redeemed : ℤ
  pub previous_fees_earned : ℤ
  pub rewards_paid : ℤ
  pub take_rate_bps : ℤ

pub record SeriesPoint : Type 0 where
  pub amount : ℤ
  pub by_type : List (Bytes × ℤ)
  pub count : ℤ
  pub start : Instant

pub record LedgerMetrics : Type 0 where
  pub as_of : Instant
  pub bucket : LedgerMetricsBucket
  pub currency : Bytes
  pub flows : List FlowRow
  pub from : Instant
  pub operations : OperationsSummary
  pub position : PositionSummary
  pub reconciliation : List ReconciliationRow
  pub revenue : RevenueSummary
  pub series : List SeriesPoint
  pub to : Instant
  pub top_merchants : List MerchantVolume
  pub window : Bytes

pub record SummaryRow : Type 0 where
  pub accounts : ℤ
  pub balance : ℤ
  pub commodity : Bytes
  pub owner_type : Bytes
  pub purpose : Bytes

pub record LedgerSummary : Type 0 where
  pub currency : Bytes
  pub fee_plan : FeePlan
  pub rows : List SummaryRow

pub record MarketingView : Type 0 where
  pub marketing_balance : ℤ
  pub settlement_balance : ℤ

pub record Payout : Type 0 where
  pub amount : ℤ
  pub created_at : Instant
  pub external_ref : Option Bytes
  pub fee : ℤ
  pub id : Uuid
  pub merchant_id : Uuid
  pub rail : Bytes
  pub status : PayoutStatus
  pub txn_id : Uuid

pub record StatementEntry : Type 0 where
  pub amount : ℤ
  pub commodity : Bytes
  pub created_at : Instant
  pub direction : StatementEntryDirection
  pub txn_id : Uuid
  pub txn_type : Bytes

pub record RunClientPayoutJsonBody : Type 0 where
  pub amount : Option ℤ
