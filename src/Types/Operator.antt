-- ===== src/Types/Operator.antt =====
-- Models of types.gen.go: the tenants and the view of the operator of the platform. No method of the client takes or
-- returns them yet. An enum is a string in Go, and so here;
-- a JSON value of no fixed type, and a file, is its bytes.
use walletd_go.Base.{ℤ, Bool, List, Option, Bytes}
use walletd_go.Uuid.{Uuid}
use walletd_go.Types.Instant.{Instant}
use walletd_go.Types.Ledger.{SummaryRow}
use walletd_go.Types.People.{TransactionLeg}
use walletd_go.Types.Sellers.{FeeSchedule}
use walletd_go.Types.Names.{
  CatalogClientStatus, CommissionMode, HealthStatus, SubscriptionInterval, SubscriptionStatus,
  UserKind,
}

pub record AuditEntry : Type 0 where
  pub action : Bytes
  pub actor_id : Bytes
  pub actor_type : Bytes
  pub after : Bytes
  pub before : Bytes
  pub created_at : Instant
  pub id : ℤ
  pub object_id : Bytes
  pub object_type : Bytes

pub record CreateSupportAccessGrantRequest : Type 0 where
  pub expires_at : Instant
  pub reason : Bytes
  pub staff_id : Bytes
  pub ticket_reference : Bytes

pub record CreateTenantRequest : Type 0 where
  pub currency : Bytes
  pub name : Bytes

pub record Health : Type 0 where
  pub status : HealthStatus

pub record PlatformClient : Type 0 where
  pub approved_at : Option Instant
  pub category : Option Bytes
  pub created_at : Instant
  pub display_name : Bytes
  pub id : Uuid
  pub merchant_id : Uuid
  pub org_alias : Bytes
  pub status : CatalogClientStatus
  pub tenant_id : Uuid
  pub tenant_name : Bytes

pub record Tenant : Type 0 where
  pub commission_mode : CommissionMode
  pub created_at : Instant
  pub currency : Bytes
  pub fees : FeeSchedule
  pub id : Uuid
  pub name : Bytes
  pub status : Bytes

pub record PlatformTenantRow : Type 0 where
  pub balanced : Bool
  pub merchant_settlement : ℤ
  pub subscriptions_active : ℤ
  pub tenant : Tenant
  pub transactions30d : ℤ
  pub treasury : ℤ
  pub user_cash : ℤ
  pub users : ℤ
  pub volume30d : ℤ

pub record PlatformTotal : Type 0 where
  pub currency : Bytes
  pub merchant_settlement : ℤ
  pub tenants : ℤ
  pub transactions30d : ℤ
  pub treasury : ℤ
  pub user_cash : ℤ
  pub users : ℤ
  pub volume30d : ℤ

pub record PlatformOverview : Type 0 where
  pub as_of : Instant
  pub tenants : List PlatformTenantRow
  pub totals : List PlatformTotal

pub record PlatformSubscription : Type 0 where
  pub amount : ℤ
  pub created_at : Instant
  pub currency : Bytes
  pub id : Uuid
  pub interval : SubscriptionInterval
  pub merchant_id : Uuid
  pub next_charge_at : Instant
  pub plan_name : Bytes
  pub retry_count : ℤ
  pub status : SubscriptionStatus
  pub tenant_id : Uuid
  pub tenant_name : Bytes
  pub user_id : Uuid

pub record PlatformTransaction : Type 0 where
  pub created_at : Instant
  pub id : Uuid
  pub legs : List TransactionLeg
  pub metadata : Option (List (Bytes × Bytes))
  pub status : Bytes
  pub tenant_id : Uuid
  pub tenant_name : Bytes
  pub kind : Bytes

pub record PlatformUser : Type 0 where
  pub created_at : Instant
  pub display_name : Option Bytes
  pub external_id : Bytes
  pub handle : Option Bytes
  pub id : Uuid
  pub kind : UserKind
  pub status : Bytes
  pub tenant_id : Uuid
  pub tenant_name : Bytes

pub record SupportAccessGrant : Type 0 where
  pub created_at : Instant
  pub created_by_id : Bytes
  pub created_by_type : Bytes
  pub expires_at : Instant
  pub id : Uuid
  pub reason : Bytes
  pub revoked_at : Option Instant
  pub revoked_by_id : Option Bytes
  pub revoked_by_type : Option Bytes
  pub staff_id : Bytes
  pub tenant_id : Uuid
  pub ticket_reference : Bytes

pub record TenantSummary : Type 0 where
  pub invariants_ok : Bool
  pub rows : List SummaryRow
  pub tenant : Tenant
  pub violations : Option (List Bytes)
