-- ===== src/Api/Merged.antt =====
-- The query of ListClientOfferings: what it says of the filter and of the page.
use walletd_go.Base.{
  Bool, true, false, Option, none, some, [], ◌==◌, if◌then◌else◌, ℤ, pos, ltb_ℤ, Bytes, beq, codes,
  ◌≡◌, refl, ap, ◌∙◌, not, Bool-cases, inl, inr,
}
use walletd_go.Uuid.{Uuid, nil_uuid}
use walletd_go.Text.Decimal.{format_int}
use walletd_go.Api.Values.{Values, get, set, before}
use walletd_go.Api.Query.{
  set_text, set_id, set_limit, page_query, copy, OfferingFilter, filter_values, offering_query,
}
use walletd_go.Api.Setting.{get-set, chosen, chosen_absent, get-set_if, get-set_unless}

-- The text of an identifier, if there is one.
unfoldable pub id_text : (Uuid → Bytes) → Option Uuid → Option Bytes
id_text uuid_string none = none
id_text uuid_string (some id) = some (uuid_string id)

id_or : Option Bytes → Option Bytes → Option Bytes
id_or none o = o
id_or (some s) o = some s

get-set_id :
    (uuid_string : Uuid → Bytes) (key k : Bytes) (id : Option Uuid) (q : Values)
    → get k (set_id uuid_string key id q)
      ≡ (if beq key k then id_or (id_text uuid_string id) (get k q) else get k q)
unfolding set_id id_text id_or
get-set_id uuid_string key k none q = same (beq key k) (get k q)
  where
    same : (b : Bool) (o : Option Bytes) → o ≡ (if b then o else o)
    same true o = refl
    same false o = refl
get-set_id uuid_string key k (some id) q = get-set key k (uuid_string id) q

-- What is read of the filter.
filtered :
    (uuid_string : Uuid → Bytes) (f : OfferingFilter) (k : Bytes)
    → get k (filter_values uuid_string f)
      ≡ chosen (beq (codes "low_stock") k) f.low_stock (some (codes "true")) (
          chosen (beq (codes "q") k) (not (beq f.query [])) (some f.query) (
            let rest =
              chosen (beq (codes "status") k) (not (beq f.status [])) (some f.status) none in
            if beq (codes "category_id") k
            then id_or (id_text uuid_string f.category_id) rest
            else rest))
unfolding filter_values set_text get
filtered uuid_string f k =
    let status = get-set_unless (beq f.status []) (codes "status") k f.status [] in
    let q1 = if beq f.status [] then [] else set (codes "status") f.status [] in
    let q2 = set_id uuid_string (codes "category_id") f.category_id q1 in
    let q3 = if beq f.query [] then q2 else set (codes "q") f.query q2 in
    get-set_if f.low_stock (codes "low_stock") k (codes "true") q3
    ∙ ap (chosen (beq (codes "low_stock") k) f.low_stock (some (codes "true"))) (
        get-set_unless (beq f.query []) (codes "q") k f.query q2
        ∙ ap (chosen (beq (codes "q") k) (not (beq f.query [])) (some f.query)) (
            get-set_id uuid_string (codes "category_id") k f.category_id q1
            ∙ ap
                (λ o.
                  if beq (codes "category_id") k
                  then id_or (id_text uuid_string f.category_id) o
                  else o)
                status))

-- What is read of the page, or of what it is copied into.
copied :
    (uuid_string : Uuid → Bytes) (cursor : Uuid) (limit : ℤ) (k : Bytes) (q : Values)
    → get k (copy (page_query uuid_string cursor limit) q)
      ≡ chosen (beq (codes "limit") k) (ltb_ℤ (pos 0) limit) (some (format_int limit)) (
          chosen
            (beq (codes "cursor") k)
            (not (cursor == nil_uuid))
            (some (uuid_string cursor))
            (get k q))
unfolding page_query set_limit copy set before beq
copied uuid_string cursor limit k q = elim (Bool-cases (cursor == nil_uuid)) [
  | inl c ↦ elim (Bool-cases (ltb_ℤ (pos 0) limit)) [
    | inl l ↦
        rw (c, l)
          (get-set_if true (codes "limit") k (format_int limit) q
            ∙ ap (chosen (beq (codes "limit") k) true (some (format_int limit)))
                (chosen_absent (beq (codes "cursor") k) (some (uuid_string cursor)) (get k q)))
    | inr l ↦
        rw (c, l)
          (chosen_absent (beq (codes "cursor") k) (some (uuid_string cursor)) (get k q)
            ∙ chosen_absent (beq (codes "limit") k) (some (format_int limit)) _)
  ]
  | inr c ↦ elim (Bool-cases (ltb_ℤ (pos 0) limit)) [
    | inl l ↦
        rw (c, l)
          (get-set_if true (codes "limit") k (format_int limit)
              (set (codes "cursor") (uuid_string cursor) q)
            ∙ ap (chosen (beq (codes "limit") k) true (some (format_int limit)))
                (get-set_if true (codes "cursor") k (uuid_string cursor) q))
    | inr l ↦
        rw (c, l)
          (get-set_if true (codes "cursor") k (uuid_string cursor) q
            ∙ chosen_absent (beq (codes "limit") k) (some (format_int limit)) _)
  ]
]

id_or-none : (o : Option Bytes) → id_or o none ≡ o
unfolding id_or
id_or-none none = refl
id_or-none (some s) = refl

both :
    (uuid_string : Uuid → Bytes) (f : OfferingFilter) (cursor : Uuid) (limit : ℤ) (k : Bytes)
    → get k (offering_query uuid_string f cursor limit)
      ≡ chosen (beq (codes "limit") k) (ltb_ℤ (pos 0) limit) (some (format_int limit)) (
          chosen
            (beq (codes "cursor") k)
            (not (cursor == nil_uuid))
            (some (uuid_string cursor))
            (get k (filter_values uuid_string f)))
unfolding offering_query
both uuid_string f cursor limit k = copied uuid_string cursor limit k (filter_values uuid_string f)

-- A value that is there if it was given.
abbrev pub given : Bool → Bytes → Option Bytes
given is_given value = if is_given then some value else none

-- The query of one page of a catalog holds the whole filter and the whole page, whatever both are: each
-- of the four conditions and both page parameters is there under its key exactly if it was given, and with
-- the value that was given. The copy of the page into the filter overwrites none of them.
pub offering_query-get :
    (uuid_string : Uuid → Bytes) (f : OfferingFilter) (cursor : Uuid) (limit : ℤ)
    → (get (codes "status") (offering_query uuid_string f cursor limit)
        ≡ given (not (beq f.status [])) f.status)
      × (get (codes "category_id") (offering_query uuid_string f cursor limit)
          ≡ id_text uuid_string f.category_id)
      × (get (codes "q") (offering_query uuid_string f cursor limit)
          ≡ given (not (beq f.query [])) f.query)
      × (get (codes "low_stock") (offering_query uuid_string f cursor limit)
          ≡ given f.low_stock (codes "true"))
      × (get (codes "cursor") (offering_query uuid_string f cursor limit)
          ≡ given (not (cursor == nil_uuid)) (uuid_string cursor))
      × (get (codes "limit") (offering_query uuid_string f cursor limit)
          ≡ given (ltb_ℤ (pos 0) limit) (format_int limit))
unfolding beq
offering_query-get uuid_string f cursor limit =
    let read = both uuid_string f cursor limit in
    let kept = filtered uuid_string f in
    (
      read (codes "status") ∙ kept (codes "status"),
      read (codes "category_id")
          ∙ kept (codes "category_id")
          ∙ id_or-none (id_text uuid_string f.category_id),
      read (codes "q") ∙ kept (codes "q"),
      read (codes "low_stock") ∙ kept (codes "low_stock"),
      read (codes "cursor")
          ∙ ap (chosen true (not (cursor == nil_uuid)) (some (uuid_string cursor)))
              (kept (codes "cursor")),
      read (codes "limit")
          ∙ ap (chosen true (ltb_ℤ (pos 0) limit) (some (format_int limit))) (kept (codes "limit")),
    )
