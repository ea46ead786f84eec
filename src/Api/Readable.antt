-- ===== src/Api/Readable.antt =====
-- The queries of the listings are of bytes, so a reader of the query string gets their values back.
use walletd_go.Base.{
  ◌<◌, Bool, true, ◌&&◌, and_true, Option, none, some, [], ◌∷◌, ltb, ltb→lt, ◌==◌, ℤ, pos, ltb_ℤ,
  Bytes, beq, codes, ◌≡◌, refl, inl, inr, Bool-cases, arith,
}
use walletd_go.Uuid.{Uuid, nil_uuid}
use walletd_go.Text.Decimal.{format_int, format_int-All}
use walletd_go.Api.Values.{Values, set, before, encode}
use walletd_go.Api.Query.{
  set_text, set_id, set_limit, page_query, copy, OfferingFilter, filter_values, offering_query,
}
use walletd_go.Api.Decoded.{IsBytes, HasBytes, read_query, read_query-encode}

-- Whether a text is of bytes.
is_small : Bytes → Bool
is_small [] = true
is_small (c ∷ s) = ltb c 256 && is_small s

is_small-IsBytes : (s : Bytes) → is_small s ≡ true → IsBytes s
unfolding is_small
is_small-IsBytes [] h = tt
is_small-IsBytes (c ∷ s) h =
    let (first, rest) = and_true _ _ h in (ltb→lt _ _ first, is_small-IsBytes s rest)

set-HasBytes :
    (key value : Bytes) (q : Values)
    → IsBytes key
    → IsBytes value
    → HasBytes q
    → HasBytes (set key value q)
unfolding set
set-HasBytes key value [] hk hv h = ((hk, hv), tt)
set-HasBytes key value ((k, v) ∷ q) hk hv (first, h) =
    let later = set-HasBytes key value q hk hv h in
    elim (Bool-cases (beq k key)) [
      | inl same ↦ rw same ((hk, hv), h)
      | inr other ↦ elim (Bool-cases (before key k)) [
        | inl less ↦ rw (other, less) ((hk, hv), (first, h))
        | inr more ↦ rw (other, more) (first, later)
      ]
    ]

copy-HasBytes : (page q : Values) → HasBytes page → HasBytes q → HasBytes (copy page q)
unfolding copy
copy-HasBytes [] q h h' = h'
copy-HasBytes ((k, v) ∷ page) q ((hk, hv), h) h' =
    copy-HasBytes page (set k v q) h (set-HasBytes k v q hk hv h')

set_text-HasBytes :
    (key value : Bytes) (q : Values)
    → IsBytes key
    → IsBytes value
    → HasBytes q
    → HasBytes (set_text key value q)
unfolding set_text
set_text-HasBytes key value q hk hv h = elim (Bool-cases (beq value [])) [
  | inl empty ↦ rw empty h
  | inr full ↦ rw full (set-HasBytes key value q hk hv h)
]

set_limit-HasBytes : (limit : ℤ) (q : Values) → HasBytes q → HasBytes (set_limit limit q)
unfolding set_limit is_small
set_limit-HasBytes limit q h = elim (Bool-cases (ltb_ℤ (pos 0) limit)) [
  | inr default ↦ rw default h
  | inl positive ↦ rw positive (
      set-HasBytes (codes "limit") (format_int limit) q (is_small-IsBytes (codes "limit") refl)
        (format_int-All (λ c. c < 256) (λ c low high. omega arith) (omega arith) limit) h)
]

module _ (uuid_string : Uuid → Bytes) (printed : (id : Uuid) → IsBytes (uuid_string id)) where
  set_id-HasBytes :
      (key : Bytes) (id : Option Uuid) (q : Values)
      → IsBytes key
      → HasBytes q
      → HasBytes (set_id uuid_string key id q)
  unfolding set_id
  set_id-HasBytes key none q hk h = h
  set_id-HasBytes key (some id) q hk h = set-HasBytes key (uuid_string id) q hk (printed id) h

  page_query-HasBytes : (cursor : Uuid) (limit : ℤ) → HasBytes (page_query uuid_string cursor limit)
  unfolding page_query is_small
  page_query-HasBytes cursor limit = elim (Bool-cases (cursor == nil_uuid)) [
    | inl first ↦ rw first (set_limit-HasBytes limit [] tt)
    | inr later ↦ rw later (
        set_limit-HasBytes limit (set (codes "cursor") (uuid_string cursor) []) (
          set-HasBytes (codes "cursor") (uuid_string cursor) []
            (is_small-IsBytes (codes "cursor") refl) (printed cursor) tt))
  ]

  filter_values-HasBytes :
      (f : OfferingFilter)
      → IsBytes f.status
      → IsBytes f.query
      → HasBytes (filter_values uuid_string f)
  unfolding filter_values is_small
  filter_values-HasBytes f status query =
      let named =
        set_text-HasBytes (codes "status") f.status [] (is_small-IsBytes (codes "status") refl)
          status tt in
      let categorised =
        set_id-HasBytes (codes "category_id") f.category_id _
          (is_small-IsBytes (codes "category_id") refl) named in
      let searched =
        set_text-HasBytes (codes "q") f.query _ (is_small-IsBytes (codes "q") refl) query
          categorised in
      elim (Bool-cases f.low_stock) [
        | inr any ↦ rw any searched
        | inl low ↦ rw low (
            set-HasBytes (codes "low_stock") (codes "true") _
              (is_small-IsBytes (codes "low_stock") refl) (is_small-IsBytes (codes "true") refl)
              searched)
      ]

-- The query string of ListClientOfferings is read back to the values that were set and to nothing else,
-- whichever bytes the status and the search text have.
pub offering_query_read :
    (uuid_string : Uuid → Bytes) (f : OfferingFilter) (cursor : Uuid) (limit : ℤ)
    → ((id : Uuid) → IsBytes (uuid_string id))
    → IsBytes f.status
    → IsBytes f.query
    → read_query (encode (offering_query uuid_string f cursor limit))
      ≡ some (offering_query uuid_string f cursor limit)
unfolding offering_query
offering_query_read uuid_string f cursor limit printed status query =
    read_query-encode (offering_query uuid_string f cursor limit) (
      copy-HasBytes (page_query uuid_string cursor limit) (filter_values uuid_string f)
        (page_query-HasBytes uuid_string printed cursor limit)
        (filter_values-HasBytes uuid_string printed f status query))
