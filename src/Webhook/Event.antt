-- ===== src/Webhook/Event.antt =====
-- Event, ParseEvent and Into of webhook.go.
use walletd_go.Base.{
  ℕ, Bool, true, false, ◌||◌, Option, none, some, List, [], ◌∷◌, ◌==◌, ne→==-false, if◌then◌else◌,
  Bytes, beq, nonempty, ◌≡◌, ◌≢◌, refl, ap, ◌∙◌, arith, subst,
}
use walletd_go.Errors.Chain.{Err}
use walletd_go.Errors.Result.{Result, ok, err}
use walletd_go.Uuid.{Uuid, nil_uuid}

-- Data is `objects`: raw JSON under its keys.
pub record Event : Type 0 where
  pub id : Uuid
  pub kind : Bytes
  pub tenant_id : Uuid
  pub client_id : Option Uuid
  pub created_at : ℕ
  pub objects : List (Bytes × Bytes)

-- `e.Data[key]`
unfoldable pub payload_of : List (Bytes × Bytes) → Bytes → Option Bytes
payload_of [] key = none
payload_of ((k, raw) ∷ objects) key =
    let rest = payload_of objects key in if beq k key then some raw else rest

-- The envelope once it is decoded.
unfoldable pub identified : Result Event → Result Event
identified (err e) = err (Err.wrap e)
identified (ok e) =
    if beq e.kind [] || e.id == nil_uuid || e.tenant_id == nil_uuid then err Err.plain else ok e

-- ParseEvent; `unmarshal` is `json.Unmarshal` into an Event.
unfoldable pub parse_event : (Bytes → Result Event) → Bytes → Result Event
unfolding identified
parse_event unmarshal body = identified (unmarshal body)

unfoldable pub decode_payload : {V : Type 0} → (Bytes → Result V) → Option Bytes → Result V
decode_payload unmarshal none = err Err.plain
decode_payload unmarshal (some raw) = elim (unmarshal raw) [
  | ok v ↦ ok v
  | err e ↦ err (Err.wrap e)
]

-- (e Event) Into; `unmarshal` is `json.Unmarshal` into the type of `v`.
unfoldable pub into : {V : Type 0} → (Bytes → Result V) → Event → Bytes → Result V
unfolding decode_payload payload_of
into unmarshal e key = decode_payload unmarshal (payload_of e.objects key)

-- An event with all that an envelope needs.
abbrev pub IsIdentified : Event → Type 0
IsIdentified e = (e.kind ≢ []) × (e.id ≢ nil_uuid) × (e.tenant_id ≢ nil_uuid)

beq-nil : (s : Bytes) → s ≢ [] → beq s [] ≡ false
unfolding beq
beq-nil [] h = absurd (h refl)
beq-nil (c ∷ s) h = refl

kept : (e : Event) → IsIdentified e → identified (ok e) ≡ ok e
unfolding identified
kept e (kind, id, tenant) =
    rw (beq-nil e.kind kind, ne→==-false e.id nil_uuid id, ne→==-false e.tenant_id nil_uuid tenant)
      refl

checked :
    (e : Event)
    → beq e.kind [] || e.id == nil_uuid || e.tenant_id == nil_uuid ≡ false
    → IsIdentified e
checked e h = (nonempty e.kind (ground arith), ground arith, ground arith)

settled :
    (bad : Bool) (d e : Event)
    → (bad ≡ false → IsIdentified d)
    → (if bad then err Err.plain else ok d) ≡ ok e
    → (ok d ≡ ok e) × IsIdentified e
settled true d e fine h = absurd cc
settled false d e fine h = let same : d ≡ e = cc in (h, subst IsIdentified same (fine refl))

identified_lem : (r : Result Event) (e : Event) → identified r ≡ ok e → (r ≡ ok e) × IsIdentified e
unfolding identified
identified_lem (err x) e h = absurd cc
identified_lem (ok d) e h =
    settled (beq d.kind [] || d.id == nil_uuid || d.tenant_id == nil_uuid) d e (checked d) h

-- ParseEvent returns an event exactly if the JSON decoder makes that event of the body and the event has a
-- type, an id and a tenant id, none of them empty or zero.
pub parse_event-IsIdentified :
    (unmarshal : Bytes → Result Event) (body : Bytes) (e : Event)
    → (parse_event unmarshal body ≡ ok e → (unmarshal body ≡ ok e) × IsIdentified e)
      × ((unmarshal body ≡ ok e) × IsIdentified e → parse_event unmarshal body ≡ ok e)
unfolding parse_event
parse_event-IsIdentified unmarshal body e =
    (identified_lem (unmarshal body) e, λ h. ap identified h.0 ∙ kept e h.1)
