-- ===== src/Types/Money.antt =====
-- Models of types.gen.go that the methods of the client take or return. An enum is a string in Go,
-- and so here; an instant is its nanoseconds since the year 1.
use walletd_go.Base.{ℤ, List, Option, Bytes}
use walletd_go.Uuid.{Uuid}
use walletd_go.Types.Instant.{Instant}
use walletd_go.Types.Names.{
  CreatePaymentRequestMode, PaymentStatus, SubscriptionInterval, SubscriptionStatus,
  TopupMethodFlow, TopupNextActionKind, TopupStatus,
}

pub record TopupMethod : Type 0 where
  pub currencies : Option (List Bytes)
  pub flow : TopupMethodFlow
  pub gateway : Bytes

pub record TopupNextAction : Type 0 where
  pub client_secret : Option Bytes
  pub kind : TopupNextActionKind
  pub redirect_url : Option Bytes

pub record Topup : Type 0 where
  pub amount : ℤ
  pub client_secret : Option Bytes
  pub created_at : Instant
  pub gateway : Bytes
  pub id : Uuid
  pub next_action : Option TopupNextAction
  pub status : TopupStatus
  pub user_id : Uuid

pub record Transfer : Type 0 where
  pub amount : ℤ
  pub created_at : Instant
  pub fee : ℤ
  pub from_user : Uuid
  pub id : Uuid
  pub note : Option Bytes
  pub status : Bytes
  pub to_user : Uuid

pub record LineItem : Type 0 where
  pub amount : ℤ
  pub name : Bytes

pub record Payment : Type 0 where
  pub amount : ℤ
  pub captured_amount : ℤ
  pub commission : ℤ
  pub created_at : Instant
  pub fee : ℤ
  pub hold_expires_at : Option Instant
  pub id : Uuid
  pub line_items : Option (List LineItem)
  pub merchant_id : Uuid
  pub mode : Bytes
  pub payer_user_id : Uuid
  pub refunded_amount : ℤ
  pub status : PaymentStatus

pub record Refund : Type 0 where
  pub amount : ℤ
  pub created_at : Instant
  pub id : Uuid
  pub payment_id : Uuid
  pub reason : Option Bytes
  pub status : Bytes

pub record Conversion : Type 0 where
  pub cash_credited : ℤ
  pub id : Uuid
  pub minor_per_point : ℤ
  pub points : ℤ
  pub user_id : Uuid

pub record RewardGrant : Type 0 where
  pub amount : ℤ
  pub created_at : Instant
  pub id : Uuid
  pub kind : Bytes
  pub rule_id : Uuid
  pub source_txn : Uuid
  pub txn_id : Uuid
  pub user_id : Uuid

pub record Subscription : Type 0 where
  pub amount : ℤ
  pub commission : ℤ
  pub created_at : Instant
  pub id : Uuid
  pub interval : SubscriptionInterval
  pub merchant_id : Uuid
  pub metadata : Option (List (Bytes × Bytes))
  pub next_charge_at : Instant
  pub plan_name : Bytes
  pub retry_count : ℤ
  pub status : SubscriptionStatus
  pub user_id : Uuid

pub record CreateTopupRequest : Type 0 where
  pub amount : ℤ
  pub gateway : Bytes
  pub user_id : Uuid

pub record Alias : Type 0 where
  pub email : Option Bytes
  pub handle : Option Bytes
  pub phone : Option Bytes

pub record CreateTransferRequest : Type 0 where
  pub amount : ℤ
  pub from_user : Uuid
  pub metadata : Option (List (Bytes × Bytes))
  pub note : Option Bytes
  pub to_alias : Option Alias
  pub to_user : Option Uuid

pub record CreatePaymentRequest : Type 0 where
  pub amount : ℤ
  pub hold_ttl_seconds : Option ℤ
  pub line_items : Option (List LineItem)
  pub merchant_id : Uuid
  pub metadata : Option (List (Bytes × Bytes))
  pub mode : CreatePaymentRequestMode
  pub payer_user_id : Uuid

pub record CreateRefundRequest : Type 0 where
  pub amount : ℤ
  pub payment_id : Uuid
  pub reason : Option Bytes

pub record ConvertPointsJsonBody : Type 0 where
  pub points : ℤ
  pub user_id : Uuid

pub record CreateSubscriptionRequest : Type 0 where
  pub amount : ℤ
  pub interval : SubscriptionInterval
  pub merchant_id : Uuid
  pub metadata : Option (List (Bytes × Bytes))
  pub plan_name : Bytes
  pub start_at : Option Instant
  pub user_id : Uuid

pub record CapturePaymentJsonBody : Type 0 where
  pub amount : Option ℤ
