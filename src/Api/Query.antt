-- ===== src/Api/Query.antt =====
-- The queries of the listings: pageQuery of users.go and the filter of commerce.go.
use walletd_go.Base.{
  Bool, Option, none, some, [], ◌∷◌, ◌==◌, if◌then◌else◌, ℤ, pos, ltb_ℤ, Bytes, beq, codes,
}
use walletd_go.Uuid.{Uuid, nil_uuid}
use walletd_go.Text.Decimal.{format_int}
use walletd_go.Api.Values.{Values, set}

-- `q.Set(key, value)` under a test for the empty string.
unfoldable pub set_text : Bytes → Bytes → Values → Values
unfolding set
set_text key value q = if beq value [] then q else set key value q

-- `q.Set("limit", strconv.Itoa(limit))` for a positive limit.
unfoldable pub set_limit : ℤ → Values → Values
unfolding set
set_limit limit q = if ltb_ℤ (pos 0) limit then set (codes "limit") (format_int limit) q else q

-- The copy of `pageQuery` into other values, key by key.
unfoldable pub copy : Values → Values → Values
unfolding set
copy [] q = q
copy ((k, v) ∷ page) q = copy page (set k v q)

-- `uuid_string` is `UUID.String` of google/uuid.
module _ (uuid_string : Uuid → Bytes) where
  -- `q.Set(key, id.String())` for a pointer that is not nil.
  unfoldable pub set_id : Bytes → Option Uuid → Values → Values
  unfolding set
  set_id key none q = q
  set_id key (some id) q = set key (uuid_string id) q

  -- pageQuery
  unfoldable pub page_query : Uuid → ℤ → Values
  unfolding set set_limit
  page_query cursor limit =
      set_limit limit
        (if cursor == nil_uuid then [] else set (codes "cursor") (uuid_string cursor) [])

-- OfferingFilter
pub record OfferingFilter : Type 0 where
  pub status : Bytes
  pub category_id : Option Uuid
  pub query : Bytes
  pub low_stock : Bool

module _ (uuid_string : Uuid → Bytes) where
  -- (f OfferingFilter) values
  unfoldable pub filter_values : OfferingFilter → Values
  unfolding set set_text set_id
  filter_values f =
      let q = set_text (codes "status") f.status [] in
      let q = set_id uuid_string (codes "category_id") f.category_id q in
      let q = set_text (codes "q") f.query q in
      if f.low_stock then set (codes "low_stock") (codes "true") q else q

  -- The query of ListClientOfferings.
  unfoldable pub offering_query : OfferingFilter → Uuid → ℤ → Values
  unfolding filter_values page_query copy
  offering_query f cursor limit = copy (page_query uuid_string cursor limit) (filter_values f)
