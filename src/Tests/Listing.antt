-- ===== src/Tests/Listing.antt =====
-- The history of a user with one transaction of two rows, over HTTP.
use walletd_go.Base.{
  ℕ, zero, suc, Bool, true, false, Option, none, List, [], ◌∷◌, ◌++◌, take, Bytes, codes, beq, pos,
  ltb_ℤ, if◌then◌else◌, ◌≡◌, refl, ap, ◌==◌, Bool-cases, inl, inr, arith,
}
use walletd_go.Errors.Result.{Result, ok}
use walletd_go.Uuid.{Uuid, nil_uuid}
use walletd_go.Types.People.{UserTransaction}
use walletd_go.Client.World.{Env, HttpClient, use_last_response}
use walletd_go.Client.Do.{Call, request, target}
use walletd_go.Pagination.Iterator.{Iterator}
use walletd_go.Pagination.Loops.{returned}
use walletd_go.Pagination.Walks.{collect}
use walletd_go.Pagination.Listing.{Group, rows, after, behind, page_after}
use walletd_go.Pagination.Accept.{IsListing}
use walletd_go.Api.Values.{set, before, encode, unreserved, query_escape}
use walletd_go.Api.Query.{page_query, set_limit}
use walletd_go.Api.Calls.{Json}
use walletd_go.Api.Answered.{fetch_call}
use walletd_go.Api.Wire.{AnswersPages, listing_path, listing_query, listing_truncated}
use walletd_go.Errors.Chain.{Err}
use walletd_go.Api.Listings.{of_user_transactions, iterator_of}
use walletd_go.Tests.Fixtures.{response, world_of, client_of, letter}

-- A conversion: it debits cash and credits points.
abbrev pub cash : UserTransaction
cash = record {
  amount = pos 500;
  commodity = codes "usd";
  created_at = pos 0;
  direction = codes "debit";
  purpose = codes "main";
  txn_id = 7;
  txn_type = codes "conversion";
}

abbrev pub points : UserTransaction
points = record cash { amount = pos 50; commodity = codes "points"; direction = codes "credit" }

abbrev pub history : List (Group UserTransaction)
history = record { id = 7; first = cash; more = points ∷ [] } ∷ []

pub history-IsListing : IsListing (λ (r : UserTransaction). r.txn_id) history
history-IsListing = record {
  distinct = (tt, tt);
  not_nil = ((λ e. absurd (omega arith)), tt);
  keyed = ((refl, (refl, tt)), tt);
}

-- The server has one page: it answers it where the query begins with the limit, which is where it names no
-- cursor.
abbrev pub by_query : Bytes → Bytes
by_query [] = []
by_query (c ∷ s) = if c == b'l' then codes "page" else []

abbrev pub paging : HttpClient Unit
paging = record {
  exchange = λ policy req w. (ok (response 200 (by_query req.target)), w);
  check_redirect = use_last_response;
}

abbrev pub paging_world : Env Unit
paging_world = record (world_of (λ d w. (none, w)) paging) { url_string = λ u. u.raw_query }

abbrev pub page_of : Bytes → Result (List UserTransaction)
page_of [] = ok []
page_of (c ∷ s) = ok (cash ∷ points ∷ [])

abbrev pub page_json : Json (List UserTransaction)
page_json = record { zero_value = []; unmarshal = page_of }

positive : (n : ℕ) → ltb_ℤ (pos 0) (pos (suc n)) ≡ true
positive n = ground arith

abbrev no_groups : List (Group UserTransaction)
no_groups = []

take_none : (n : ℕ) → [] ≡ take n no_groups
take_none zero = refl
take_none (suc n) = refl

none_behind : (b : Bool) (n : ℕ) → [] ≡ rows (take (suc n) (if b then no_groups else no_groups))
unfolding rows
none_behind true n = refl
none_behind false n = refl

abbrev pub history_call : Uuid → ℕ → Call (List UserTransaction)
history_call cursor limit =
    fetch_call paging_world (client_of paging) (listing_path letter (of_user_transactions 5))
      (listing_query letter (of_user_transactions 5) cursor (pos limit)) page_json

pub history-body :
    (t : Bytes) (cursor : Uuid) (n : ℕ)
    → page_of (
        by_query
          (request paging_world (client_of paging) (history_call cursor (suc n)) none t).target)
      ≡ ok (page_after history cursor (suc n))
unfolding request target beq page_query set_limit set before unreserved encode query_escape
    page_after after behind rows
history-body t cursor n = elim (Bool-cases (cursor == nil_uuid)) [
  | inl e ↦ rw (positive n, e) (ap (λ gs. ok (cash ∷ points ∷ rows gs)) (take_none n))
  | inr e ↦ rw (positive n, e) (ap ok (none_behind (7 == cursor) n))
]

history-AnswersPages :
    AnswersPages paging_world (client_of paging) letter (of_user_transactions 5) page_json history
history-AnswersPages w t cursor zero resp page some_limit (answer, low, high, whole, decoded) =
    absurd (omega arith)
history-AnswersPages w t cursor (suc n) resp page some_limit (answer, low, high, whole, decoded) =
    let body = history-body t cursor n in
    let same : page_of resp.body ≡ ok (page_after history cursor (suc n)) = cc in cc

listing_truncated_example :
    (collected : List UserTransaction) × (missing : List UserTransaction) × (e : Option Err)
    × (s : Iterator Unit UserTransaction × Unit) × (rows history ≡ collected ++ missing)
    × (collect 3
          (iterator_of paging_world (client_of paging) letter (of_user_transactions 5) page_json)
          tt
        ≡ returned (collected, e) s)
    × (e ≡ none → missing ≡ [])
unfolding rows
listing_truncated_example =
    listing_truncated paging_world (client_of paging) letter (of_user_transactions 5) page_json
      history 3 tt history-IsListing history-AnswersPages (omega arith)
