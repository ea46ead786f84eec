-- ===== src/Types/Catalog.antt =====
-- Models of types.gen.go: the catalog, its stock and its orders. No method of the client takes or
-- returns them yet. An enum is a string in Go, and so here;
-- a JSON value of no fixed type, and a file, is its bytes.
use walletd_go.Base.{ℤ, Bool, List, Option, Bytes}
use walletd_go.Uuid.{Uuid}
use walletd_go.Types.Instant.{Instant}
use walletd_go.Types.Commerce.{Markup, Order, Variant}
use walletd_go.Types.Money.{Payment}
use walletd_go.Types.Names.{
  CatalogImportRowAction, CatalogImportStatus, CreateOfferingRequestInterval,
  CreateOfferingRequestKind, InventoryMovementKind, PriceChangeSource, VariantInputPricingMode,
}

pub record CatalogImport : Type 0 where
  pub applied_count : ℤ
  pub client_id : Uuid
  pub committed_at : Option Instant
  pub create_count : ℤ
  pub created_at : Instant
  pub error : Option Bytes
  pub error_count : ℤ
  pub file_name : Bytes
  pub has_images : Bool
  pub id : Uuid
  pub row_count : ℤ
  pub status : CatalogImportStatus
  pub update_count : ℤ
  pub updated_at : Instant

pub record CatalogImportRow : Type 0 where
  pub action : CatalogImportRowAction
  pub applied : Bool
  pub errors : List Bytes
  pub image_url : Option Bytes
  pub payload : List (Bytes × Bytes)
  pub product_handle : Option Bytes
  pub row_no : ℤ
  pub sku : Option Bytes
  pub title : Option Bytes

pub record Category : Type 0 where
  pub created_at : Instant
  pub id : Uuid
  pub name : Bytes
  pub parent_id : Option Uuid
  pub position : ℤ
  pub slug : Bytes

pub record CategoryInput : Type 0 where
  pub name : Bytes
  pub parent_id : Option Uuid
  pub position : Option ℤ

pub record VariantInput : Type 0 where
  pub allow_backorder : Option Bool
  pub amount : Option ℤ
  pub barcode : Option Bytes
  pub cost_amount : Option ℤ
  pub image_url : Option Bytes
  pub initial_stock : Option ℤ
  pub low_stock_threshold : Option ℤ
  pub markup : Option Markup
  pub option_values : Option (List Bytes)
  pub position : Option ℤ
  pub pricing_mode : Option VariantInputPricingMode
  pub sku : Option Bytes
  pub track_inventory : Option Bool

pub record CreateOfferingRequest : Type 0 where
  pub amount : Option ℤ
  pub category_id : Option Uuid
  pub description : Option Bytes
  pub image_url : Option Bytes
  pub interval : Option CreateOfferingRequestInterval
  pub kind : CreateOfferingRequestKind
  pub markup : Option Markup
  pub metadata : Option (List (Bytes × Bytes))
  pub options : Option (List Bytes)
  pub title : Bytes
  pub variants : Option (List VariantInput)

pub record OrderLineInput : Type 0 where
  pub quantity : ℤ
  pub variant_id : Uuid

pub record CreateOrderRequest : Type 0 where
  pub lines : List OrderLineInput

pub record InventoryMovement : Type 0 where
  pub actor_id : Option Bytes
  pub actor_type : Option Bytes
  pub created_at : Instant
  pub id : Uuid
  pub kind : InventoryMovementKind
  pub on_hand_after : ℤ
  pub order_id : Option Uuid
  pub quantity : ℤ
  pub reason : Option Bytes
  pub reserved_after : ℤ
  pub variant_id : Uuid

pub record OrderPayment : Type 0 where
  pub order : Order
  pub payment : Payment

pub record PriceChange : Type 0 where
  pub actor_id : Option Bytes
  pub actor_type : Option Bytes
  pub created_at : Instant
  pub id : Uuid
  pub new_amount : ℤ
  pub offering_id : Uuid
  pub old_amount : Option ℤ
  pub source : PriceChangeSource
  pub variant_id : Uuid

pub record StockAdjustmentRequest : Type 0 where
  pub delta : Option ℤ
  pub reason : Option Bytes
  pub set_to : Option ℤ

pub record StockAdjustmentResult : Type 0 where
  pub movement : InventoryMovement
  pub variant : Variant

pub record UpdateOfferingRequest : Type 0 where
  pub amount : Option ℤ
  pub category_id : Option Uuid
  pub description : Option Bytes
  pub image_url : Option Bytes
  pub markup : Option Markup
  pub metadata : Option (List (Bytes × Bytes))
  pub options : Option (List Bytes)
  pub title : Bytes

pub record StartCatalogImportMultipartBody : Type 0 where
  pub file : Bytes
  pub images : Option Bytes
