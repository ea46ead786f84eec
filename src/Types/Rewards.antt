-- ===== src/Types/Rewards.antt =====
-- Models of types.gen.go: the reward rules. No method of the client takes or
-- returns them yet. An enum is a string in Go, and so here;
-- a JSON value of no fixed type, and a file, is its bytes.
use walletd_go.Base.{ℤ, List, Option, Bytes}
use walletd_go.Uuid.{Uuid}
use walletd_go.Types.Instant.{Instant}
use walletd_go.Types.Names.{ClientRewardRuleRequestKind, CreateRewardRuleRequestKind}

pub record ClientRewardRuleRequest : Type 0 where
  pub fixed : Option ℤ
  pub kind : Option ClientRewardRuleRequestKind
  pub offering_id : Option Uuid
  pub per_txn_cap : Option ℤ
  pub per_user_day_cap : Option ℤ
  pub rate_bps : Option ℤ

pub record CreateRewardRuleRequestCaps : Type 0 where
  pub per_txn : Option ℤ
  pub per_user_day : Option ℤ

pub record CreateRewardRuleRequestScope : Type 0 where
  pub categories : Option (List Bytes)
  pub merchant_ids : Option (List Uuid)
  pub offering_id : Option Uuid

pub record CreateRewardRuleRequest : Type 0 where
  pub caps : Option CreateRewardRuleRequestCaps
  pub ends_at : Option Instant
  pub kind : CreateRewardRuleRequestKind
  pub params : List (Bytes × Bytes)
  pub scope : Option CreateRewardRuleRequestScope
  pub starts_at : Option Instant

pub record RewardRule : Type 0 where
  pub caps : Option (List (Bytes × Bytes))
  pub created_at : Instant
  pub disabled_at : Option Instant
  pub ends_at : Option Instant
  pub id : Uuid
  pub kind : Bytes
  pub params : List (Bytes × Bytes)
  pub scope : Option (List (Bytes × Bytes))
  pub starts_at : Option Instant
  pub status : Bytes
  pub version : ℤ
