-- ===== src/Types/Sellers.antt =====
-- Models of types.gen.go: the merchants and clients, their fees, keys and limits. No method of the client takes or
-- returns them yet. An enum is a string in Go, and so here;
-- a JSON value of no fixed type, and a file, is its bytes.
use walletd_go.Base.{ℤ, List, Option, Bytes}
use walletd_go.Uuid.{Uuid}
use walletd_go.Types.Instant.{Instant}
use walletd_go.Types.Commerce.{Markup}
use walletd_go.Types.Names.{
  CommissionMode, IssueMerchantApiKeyRequestEnv, MerchantApiKeyEnv, MerchantApiKeyStatus,
}

pub record ClientProfileRequest : Type 0 where
  pub category : Option Bytes
  pub description : Option Bytes
  pub display_name : Bytes
  pub logo_url : Option Bytes

pub record CreateMerchantRequest : Type 0 where
  pub category : Option Bytes
  pub external_id : Bytes
  pub name : Bytes

pub record FeeRule : Type 0 where
  pub bps : ℤ
  pub flat : ℤ
  pub max_fee : Option ℤ
  pub min_fee : ℤ

pub record FeeSchedule : Type 0 where
  pub commission : Option FeeRule
  pub p2p : Option FeeRule
  pub payment : Option FeeRule
  pub payout : Option FeeRule
  pub subscription : Option FeeRule
  pub topup : Option FeeRule

pub record FeePlan : Type 0 where
  pub commission_mode : CommissionMode
  pub fees : FeeSchedule

pub record IssueMerchantApiKeyRequest : Type 0 where
  pub env : Option IssueMerchantApiKeyRequestEnv
  pub name : Bytes

pub record MerchantApiKey : Type 0 where
  pub created_at : Instant
  pub env : MerchantApiKeyEnv
  pub expires_at : Option Instant
  pub id : Uuid
  pub last_used_at : Option Instant
  pub name : Bytes
  pub scopes : List Bytes
  pub status : MerchantApiKeyStatus

pub record IssuedMerchantApiKey : Type 0 where
  pub key : MerchantApiKey
  pub token : Bytes

pub record Merchant : Type 0 where
  pub category : Option Bytes
  pub created_at : Instant
  pub external_id : Bytes
  pub id : Uuid
  pub name : Bytes
  pub status : Bytes

pub record MerchantVolume : Type 0 where
  pub amount : ℤ
  pub count : ℤ
  pub merchant_id : Uuid
  pub name : Bytes

pub record OnboardClientRequest : Type 0 where
  pub category : Option Bytes
  pub description : Option Bytes
  pub display_name : Bytes
  pub logo_url : Option Bytes

pub record Rounding : Type 0 where
  pub increment : ℤ
  pub offset : ℤ

pub record Pricing : Type 0 where
  pub markup : Option Markup
  pub repriced_variants : Option ℤ
  pub rounding : Rounding

pub record SetClientCommissionRequest : Type 0 where
  pub commission_bps : Option ℤ

pub record SetTierLimitsRequest : Type 0 where
  pub max_balance : Option ℤ
  pub p2p_per_day : Option ℤ
  pub tier : Bytes
  pub topup_per_day : Option ℤ

pub record TierLimits : Type 0 where
  pub max_balance : ℤ
  pub p2p_per_day : ℤ
  pub tier : Bytes
  pub topup_per_day : ℤ
  pub updated_at : Instant

pub record UpdateFeePlanRequest : Type 0 where
  pub commission_mode : Option CommissionMode
  pub fees : Option FeeSchedule

pub record SetUserTierJsonBody : Type 0 where
  pub tier : Bytes
