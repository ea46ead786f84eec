-- ===== src/Api/Sent.antt =====
-- What ListClientOfferings puts on the wire: the path of the client's catalog and the whole query.
use walletd_go.Base.{
  ◌≤◌, max, not, none, some, List, [], ◌∷◌, ◌++◌, length, All, ◌==◌, if◌then◌else◌, ℤ, pos,
  pos_part, ltb_ℤ, Bytes, beq, beq→eq, codes, ◌≡◌, refl, sym, ap, ◌∙◌, inl, inr, Bool-cases,
}
use walletd_go.Http.Message
use walletd_go.Uuid.{Uuid, nil_uuid}
use walletd_go.Text.Decimal.{format_int}
use walletd_go.Text.Space.{trim_slashes}
use walletd_go.Types.Commerce.{OfferingPage}
use walletd_go.Client.World.{Env, Url}
use walletd_go.Client.New.{Client}
use walletd_go.Client.Do.{Call, target, request}
use walletd_go.Client.Recording.{Exchange, Recorded, recording_env, recording}
use walletd_go.Client.Trace.{IsOfCall}
use walletd_go.Client.Entry.{body_of}
use walletd_go.Client.Sends.{do_call-sent}
use walletd_go.Api.Values.{Values, get, encode}
use walletd_go.Api.Query.{OfferingFilter, offering_query}
use walletd_go.Api.Calls.{Json, answered, call_of, fetched}
use walletd_go.Api.Commerce.{list_client_offerings}
use walletd_go.Api.Merged.{id_text, given, offering_query-get}
use walletd_go.Api.Decoded.{IsBytes, read_query}
use walletd_go.Api.Readable.{offering_query_read}

-- Values that say all of a filter and of a page.
abbrev pub Names : (Uuid → Bytes) → OfferingFilter → Uuid → ℤ → Values → Type 0
Names uuid_string f cursor limit q =
    (get (codes "status") q ≡ given (not (beq f.status [])) f.status)
    × (get (codes "category_id") q ≡ id_text uuid_string f.category_id)
    × (get (codes "q") q ≡ given (not (beq f.query [])) f.query)
    × (get (codes "low_stock") q ≡ given f.low_stock (codes "true"))
    × (get (codes "cursor") q ≡ given (not (cursor == nil_uuid)) (uuid_string cursor))
    × (get (codes "limit") q ≡ given (ltb_ℤ (pos 0) limit) (format_int limit))

module _ {W : Type 0} (world : Env W) (client : Client W) (uuid_string : Uuid → Bytes)
    (client_id : Uuid) (f : OfferingFilter) (cursor : Uuid) (limit : ℤ) where
  -- A request for the catalog of the client, at the client's own host, whose query string is read to
  -- values that say all of the filter and of the page.
  abbrev pub Asks : Exchange → Type 0
  Asks x =
      (u : Url) × (q : Values) × (x.request.method ≡ Message.get)
      × (x.request.target ≡ world.url_string u)
      × (u.host ≡ client.base.host)
      × (u.path
          ≡ trim_slashes client.base.path
            ++ (codes "/v1/clients/" ++ uuid_string client_id ++ codes "/offerings"))
      × (read_query u.raw_query ≡ some q)
      × Names uuid_string f cursor limit q

  abbrev call : Json OfferingPage → Call OfferingPage
  call json =
      call_of Message.get (codes "/v1/clients/" ++ uuid_string client_id ++ codes "/offerings") []
        (offering_query uuid_string f cursor limit) none json

  -- The base URL has no query that an empty one would leave in place.
  raw_query_lem :
      (text : Bytes)
      → client.base.raw_query ≡ []
      → (if beq text [] then client.base.raw_query else text) ≡ text
  raw_query_lem text plain = elim (Bool-cases (beq text [])) [
    | inl empty ↦ rw empty (plain ∙ sym (beq→eq text [] empty))
    | inr full ↦ rw full refl
  ]

  IsOfCall-Asks :
      (json : Json OfferingPage) (sent : List Exchange)
      → client.base.raw_query ≡ []
      → (read_query (encode (offering_query uuid_string f cursor limit))
          ≡ some (offering_query uuid_string f cursor limit))
      → All (IsOfCall world client (call json) none) sent
      → All Asks sent
  unfolding request target
  IsOfCall-Asks json [] plain read h = tt
  IsOfCall-Asks json (x ∷ xs) plain read ((t, e), h) = (
    (
      record client.base {
        path =
            trim_slashes client.base.path
            ++ (codes "/v1/clients/" ++ uuid_string client_id ++ codes "/offerings");
        raw_query =
            if beq (encode (offering_query uuid_string f cursor limit)) []
            then client.base.raw_query
            else encode (offering_query uuid_string f cursor limit);
      },
      offering_query uuid_string f cursor limit,
      ap (λ r. r.method) e,
      ap (λ r. r.target) e,
      refl,
      refl,
      ap read_query (raw_query_lem (encode (offering_query uuid_string f cursor limit)) plain)
          ∙ read,
      offering_query-get uuid_string f cursor limit,
    ),
    IsOfCall-Asks json xs plain read h,
  )

-- ListClientOfferings sends at most MaxAttempts requests, and one if that is not positive. Each of them
-- is a GET of the catalog of that client, at the host of the base URL, and a reader of its query string
-- gets the whole filter and the whole page: each of the four conditions and both page parameters under its
-- key exactly if it was given, and with the value that was given, whichever bytes the status and the search
-- text have. UUIDs print to bytes, and the base URL has no query of its own.
pub list_client_offerings_sent :
    {W : Type 0} (world : Env W) (client : Client W) (uuid_string : Uuid → Bytes)
    (json : Json OfferingPage) (client_id : Uuid) (f : OfferingFilter) (cursor : Uuid) (limit : ℤ)
    (s : Recorded W)
    → client.base.raw_query ≡ []
    → ((id : Uuid) → IsBytes (uuid_string id))
    → IsBytes f.status
    → IsBytes f.query
    → (sent : List Exchange) × ((list_client_offerings
          (recording_env world)
          (recording client)
          uuid_string
          json
          client_id
          f
          cursor
          limit
          s).1.1
        ≡ s.1 ++ sent)
      × (length sent ≤ max 1 (pos_part client.retry.max_attempts))
      × All (Asks world client uuid_string client_id f cursor limit) sent
unfolding list_client_offerings fetched answered body_of
list_client_offerings_sent world client uuid_string json client_id f cursor limit s plain printed
      status query =
    let (sent, logged, bound, all) =
      do_call-sent world client (call world client uuid_string client_id f cursor limit json) s in
    (
      sent,
      logged,
      bound,
      IsOfCall-Asks world client uuid_string client_id f cursor limit json sent plain
          (offering_query_read uuid_string f cursor limit printed status query) all,
    )
