-- ===== src/Types/Commerce.antt =====
-- Models of types.gen.go that the methods of the client take or return. An enum is a string in Go,
-- and so here; an instant is its nanoseconds since the year 1.
use walletd_go.Base.{ℤ, Bool, List, Option, Bytes}
use walletd_go.Uuid.{Uuid}
use walletd_go.Types.Instant.{Instant}
use walletd_go.Types.Names.{
  CatalogClientStatus, MarkupKind, OfferingInterval, OfferingKind, OfferingStatus, OrderStatus,
  VariantPricingMode, VariantStatus,
}

pub record CatalogClient : Type 0 where
  pub approved_at : Option Instant
  pub category : Option Bytes
  pub commission_bps : Option ℤ
  pub created_at : Instant
  pub description : Option Bytes
  pub display_name : Bytes
  pub id : Uuid
  pub logo_url : Option Bytes
  pub merchant_id : Uuid
  pub org_alias : Bytes
  pub status : CatalogClientStatus

pub record Markup : Type 0 where
  pub kind : MarkupKind
  pub value : ℤ

pub record VariantInventory : Type 0 where
  pub allow_backorder : Option Bool
  pub available : Option ℤ
  pub in_stock : Bool
  pub low_stock : Bool
  pub low_stock_threshold : Option ℤ
  pub on_hand : Option ℤ
  pub reserved : Option ℤ
  pub track_inventory : Bool

pub record Variant : Type 0 where
  pub amount : ℤ
  pub barcode : Option Bytes
  pub cost_amount : Option ℤ
  pub created_at : Instant
  pub id : Uuid
  pub image_url : Option Bytes
  pub inventory : VariantInventory
  pub markup : Option Markup
  pub offering_id : Uuid
  pub option_values : List Bytes
  pub position : ℤ
  pub pricing_mode : Option VariantPricingMode
  pub sku : Option Bytes
  pub status : VariantStatus
  pub updated_at : Instant

pub record Offering : Type 0 where
  pub amount : ℤ
  pub category_id : Option Uuid
  pub client_id : Uuid
  pub commission_bps : Option ℤ
  pub created_at : Instant
  pub description : Option Bytes
  pub id : Uuid
  pub image_url : Option Bytes
  pub interval : Option OfferingInterval
  pub kind : OfferingKind
  pub markup : Option Markup
  pub metadata : Option (List (Bytes × Bytes))
  pub options : List Bytes
  pub status : OfferingStatus
  pub title : Bytes
  pub updated_at : Instant
  pub variants : List Variant

pub record OfferingPage : Type 0 where
  pub next_cursor : Option Uuid
  pub offerings : List Offering

pub record OrderLine : Type 0 where
  pub commission : ℤ
  pub id : Uuid
  pub line_amount : ℤ
  pub offering_id : Uuid
  pub quantity : ℤ
  pub sku : Option Bytes
  pub title : Bytes
  pub unit_amount : ℤ
  pub variant_id : Uuid
  pub variant_title : Option Bytes

pub record Order : Type 0 where
  pub client_id : Uuid
  pub commission : ℤ
  pub created_at : Instant
  pub expires_at : Instant
  pub id : Uuid
  pub lines : List OrderLine
  pub merchant_id : Uuid
  pub payment_id : Option Uuid
  pub restocked_at : Option Instant
  pub status : OrderStatus
  pub subtotal : ℤ
  pub total : ℤ
  pub updated_at : Instant
  pub user_id : Uuid

pub record ExploreClientDetail : Type 0 where
  pub client : CatalogClient
  pub offerings : List Offering

pub record ExploreOfferingDetail : Type 0 where
  pub client : CatalogClient
  pub offering : Offering
