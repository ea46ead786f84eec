-- ===== src/Types/People.antt =====
-- Models of types.gen.go that the methods of the client take or return. An enum is a string in Go,
-- and so here; an instant is its nanoseconds since the year 1.
use walletd_go.Base.{ℤ, List, Option, Bytes}
use walletd_go.Uuid.{Uuid}
use walletd_go.Types.Instant.{Instant}
use walletd_go.Types.Names.{EntryDirection, UserKind}

pub record User : Type 0 where
  pub created_at : Instant
  pub display_name : Option Bytes
  pub email : Option Bytes
  pub external_id : Bytes
  pub handle : Option Bytes
  pub id : Uuid
  pub kind : UserKind
  pub phone : Option Bytes
  pub status : Bytes

pub record UserBalance : Type 0 where
  pub available : ℤ
  pub balance : ℤ
  pub commodity : Bytes
  pub held : ℤ
  pub purpose : Bytes

pub record CreditLine : Type 0 where
  pub account_id : Uuid
  pub credit_limit : ℤ
  pub previous : ℤ
  pub user_id : Uuid

pub record UserTransaction : Type 0 where
  pub amount : ℤ
  pub commodity : Bytes
  pub created_at : Instant
  pub direction : EntryDirection
  pub purpose : Bytes
  pub txn_id : Uuid
  pub txn_type : Bytes

pub record TransactionLeg : Type 0 where
  pub amount : ℤ
  pub commodity : Bytes
  pub direction : EntryDirection
  pub owner_id : Option Uuid
  pub owner_type : Bytes
  pub purpose : Bytes

pub record Transaction : Type 0 where
  pub created_at : Instant
  pub id : Uuid
  pub legs : List TransactionLeg
  pub metadata : Option (List (Bytes × Bytes))
  pub status : Bytes
  pub kind : Bytes

pub record CreateUserRequest : Type 0 where
  pub display_name : Option Bytes
  pub email : Option Bytes
  pub external_id : Bytes
  pub handle : Option Bytes
  pub kind : Option UserKind
  pub phone : Option Bytes

pub record SetCreditLimitRequest : Type 0 where
  pub credit_limit : ℤ
