-- ===== src/Tests/Offerings.antt =====
-- A catalog of two pages, over HTTP.
use walletd_go.Base.{
  ℕ, zero, suc, ◌+◌, ◌==◌, if◌then◌else◌, Option, none, some, List, [], ◌∷◌, ◌++◌, length, Bytes,
  codes, beq, pos, ◌≡◌, refl, arith,
}
use walletd_go.Errors.Result.{Result, ok, err}
use walletd_go.Uuid.{Uuid, nil_uuid}
use walletd_go.Types.Commerce.{Offering, OfferingPage}
use walletd_go.Client.World.{Env, HttpClient, use_last_response}
use walletd_go.Client.Do.{Call, request, target}
use walletd_go.Pagination.PageIterator.{PageIterator}
use walletd_go.Pagination.Loops.{returned}
use walletd_go.Pagination.Walks.{collect_pages}
use walletd_go.Pagination.Chain.{page_rows}
use walletd_go.Api.Values.{set, before, encode, unreserved, query_escape}
use walletd_go.Api.Query.{
  OfferingFilter, offering_query, filter_values, copy, page_query, set_limit, set_text, set_id,
}
use walletd_go.Api.Calls.{Json}
use walletd_go.Api.Commerce.{client_offerings}
use walletd_go.Api.Answered.{fetch_call}
use walletd_go.Errors.Chain.{Err}
use walletd_go.Api.Cataloged.{AnswersCatalog, client_offerings_truncated}
use walletd_go.Tests.Fixtures.{response, world_of, client_of, filter, letter}

abbrev coffee : Offering
coffee = record {
  amount = pos 350;
  category_id = none;
  client_id = 3;
  commission_bps = none;
  created_at = pos 0;
  description = none;
  id = 11;
  image_url = none;
  interval = none;
  kind = codes "product";
  markup = none;
  metadata = none;
  options = [];
  status = codes "active";
  title = codes "Coffee";
  updated_at = pos 0;
  variants = [];
}

-- A page of a hundred offerings, and one more behind it.
unfoldable crowd : ℕ → List Offering
crowd zero = []
crowd (suc n) = coffee ∷ crowd n

abbrev full_page : List Offering
full_page = coffee ∷ crowd 99

abbrev tea : Offering
tea = record coffee { id = 12; title = codes "Tea" }

abbrev catalog_page : Bytes → Result OfferingPage
catalog_page [] = err Err.plain
catalog_page (c ∷ s) =
    if c == b'c'
    then ok (record { offerings = tea ∷ []; next_cursor = none })
    else ok (record { offerings = full_page; next_cursor = some 11 })

abbrev catalog_json : Json OfferingPage
catalog_json = record {
  zero_value = record { offerings = []; next_cursor = none };
  unmarshal = catalog_page;
}

abbrev active : OfferingFilter
active = record filter { category_id = none }

-- The server answers with the query that it was asked, which begins with the cursor if there is one.
abbrev echoing : HttpClient Unit
echoing = record {
  exchange = λ policy req w. (ok (response 200 req.target), w);
  check_redirect = use_last_response;
}

abbrev echoing_world : Env Unit
echoing_world = record (world_of (λ d w. (none, w)) echoing) { url_string = λ u. u.raw_query }

abbrev catalog_call : Uuid → Call OfferingPage
catalog_call cursor =
    fetch_call echoing_world (client_of echoing) (codes "/v1/clients/d/offerings")
      (offering_query letter active cursor (pos 100)) catalog_json

first_body :
    (t : Bytes)
    → catalog_page (request echoing_world (client_of echoing) (catalog_call nil_uuid) none t).target
      ≡ ok (record { offerings = full_page; next_cursor = some 11 })
unfolding request target beq offering_query filter_values copy page_query set_limit set_text set_id
    set before unreserved encode query_escape
first_body t = refl

second_body :
    (t : Bytes)
    → catalog_page (request echoing_world (client_of echoing) (catalog_call 11) none t).target
      ≡ ok (record { offerings = tea ∷ []; next_cursor = none })
unfolding request target beq offering_query filter_values copy page_query set_limit set_text set_id
    set before unreserved encode query_escape
second_body t = refl

catalog-AnswersCatalog :
    AnswersCatalog echoing_world
      (client_of echoing)
      letter
      catalog_json
      3
      active
      100
      ((nil_uuid, full_page) ∷ (11, tea ∷ []) ∷ [])
catalog-AnswersCatalog = (
  λ w t resp out holds.
      let body = first_body t in
      let (answer, low, high, whole, decoded) = holds in
      let same : catalog_page resp.body
          ≡ ok (record { offerings = full_page; next_cursor = some 11 }) =
        cc in
      cc,
  (
    λ w t resp out holds.
        let body = second_body t in
        let (answer, low, high, whole, decoded) = holds in
        let same : catalog_page resp.body
            ≡ ok (record { offerings = tea ∷ []; next_cursor = none }) =
          cc in
        cc,
    tt,
  ),
)

crowd-length : (n : ℕ) → length (crowd n ++ tea ∷ []) ≡ n + 1
unfolding crowd
crowd-length zero = refl
crowd-length (suc n) = let rest = crowd-length n in omega (arith, rest)

client_offerings_truncated_example :
    (collected : List Offering) × (missing : List Offering) × (e : Option Err) × (s : PageIterator
        Unit Offering
      × Unit)
    × (full_page ++ tea ∷ [] ≡ collected ++ missing)
    × (collect_pages 200
          (client_offerings echoing_world (client_of echoing) letter catalog_json 3 active)
          tt
        ≡ returned (collected, e) s)
    × (e ≡ none → missing ≡ [])
unfolding page_rows
client_offerings_truncated_example =
    client_offerings_truncated echoing_world (client_of echoing) letter catalog_json 3 active
      full_page ((11, tea ∷ []) ∷ []) 200 tt (λ e. absurd (omega arith), λ e. absurd cc, tt)
      catalog-AnswersCatalog (let count = crowd-length 99 in omega (arith, count))
