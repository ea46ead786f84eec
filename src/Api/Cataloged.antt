-- ===== src/Api/Cataloged.antt =====
-- ClientOfferings down to the wire: from what a server answers to the requests for a page of a catalog, to
-- what Collect returns.
use walletd_go.Base.{
  ℕ, ◌<◌, Option, none, List, [], ◌∷◌, ◌++◌, length, Bytes, codes, pos, ◌≡◌, refl, sym, subst, inl,
  inr, ap, ◌∙◌,
}
use walletd_go.Errors.Chain.{Err}
use walletd_go.Errors.Result.{ok}
use walletd_go.Http.Message.{Response}
use walletd_go.Uuid.{Uuid, nil_uuid}
use walletd_go.Types.Commerce.{Offering, OfferingPage}
use walletd_go.Client.World.{Env}
use walletd_go.Client.New.{Client}
use walletd_go.Pagination.PageIterator.{PageIterator, Fetch}
use walletd_go.Pagination.Loops.{returned}
use walletd_go.Pagination.Walks.{collect_pages}
use walletd_go.Pagination.Chain.{
  Pages, page_rows, next_cursor, IsChain, MayServePages, MayAnswerPage, FromEach,
}
use walletd_go.Pagination.Pages.{collect_pages_truncated}
use walletd_go.Api.Answered.{Holds, fetched-Holds}
use walletd_go.Api.Query.{OfferingFilter, offering_query}
use walletd_go.Api.Calls.{Json}
use walletd_go.Api.Commerce.{list_client_offerings, page_parts, client_offerings}

module _ {W : Type 0} (env : Env W) (c : Client W) (uuid_string : Uuid → Bytes)
    (json : Json OfferingPage) (client_id : Uuid) (f : OfferingFilter) where
  -- What the contract of the catalog says of the wire, of the pages of one size: the body of every complete
  -- 2xx answer to a request for a page holds that page and the cursor of the next one, where it decodes.
  abbrev pub AnswersCatalog : ℕ → Pages Offering → Type 0
  AnswersCatalog limit [] = Unit
  AnswersCatalog limit ((cursor, page) ∷ rest) =
      ((w : W) (t : Bytes) (resp : Response) (out : OfferingPage)
        → Holds env c (codes "/v1/clients/" ++ uuid_string client_id ++ codes "/offerings")
            (offering_query uuid_string f cursor (pos limit)) json w t resp out
        → out ≡ record { offerings = page; next_cursor = next_cursor rest })
      × AnswersCatalog limit rest

  abbrev fetch_page : Fetch W Offering
  fetch_page w cursor limit =
      let r = list_client_offerings env c uuid_string json client_id f cursor (pos limit) w in
      (page_parts env c uuid_string r.0, r.1)

  AnswersCatalog-FromEach :
      (limit : ℕ) (pages : Pages Offering) (w : W)
      → AnswersCatalog limit pages
      → FromEach (λ rest. MayAnswerPage fetch_page limit rest w) pages
  unfolding list_client_offerings page_parts
  AnswersCatalog-FromEach limit [] w answers = tt
  AnswersCatalog-FromEach limit ((cursor, page) ∷ rest) w (answers, later) = (
    elim (fetched-Holds env c (codes "/v1/clients/" ++ uuid_string client_id ++ codes "/offerings")
        (offering_query uuid_string f cursor (pos limit)) json w) [
          | inl (out, w', t, resp, returns_page, holds) ↦ inl (
              ap (page_parts env c uuid_string)
                (returns_page ∙ ap ok (answers w' t resp out holds)))
          | inr (e, failed) ↦ inr (e, ap (page_parts env c uuid_string) failed)
        ],
    AnswersCatalog-FromEach limit rest w later,
  )

  catalog-MayServePages :
      (first : List Offering) (rest : Pages Offering)
      → AnswersCatalog 100 ((nil_uuid, first) ∷ rest)
      → MayServePages (λ n. n ≡ 100) fetch_page (λ n. (nil_uuid, first) ∷ rest)
  catalog-MayServePages first rest answers w limit default =
      AnswersCatalog-FromEach limit ((nil_uuid, first) ∷ rest) w
        (subst (λ n. AnswersCatalog n ((nil_uuid, first) ∷ rest)) (sym default) answers)

-- A catalog is never cut short in silence, whatever happens on the way to the server. Let it be cut into
-- pages of the size 100, which is what the iterator of ClientOfferings asks for: cursors move on, only the
-- last page may be empty, and the body of every complete 2xx answer to a request for one of these pages,
-- where it decodes, holds that page and the cursor of the next one. Then Collect on that iterator gives the
-- first offerings of the catalog in order, and all of them if it returns no error. What the server answers
-- for another page size is left open, and the credential, the network, the clock, the context and the
-- retries may do anything.
pub client_offerings_truncated :
    {W : Type 0} (env : Env W) (c : Client W) (uuid_string : Uuid → Bytes)
    (json : Json OfferingPage) (client_id : Uuid) (f : OfferingFilter) (first : List Offering)
    (rest : Pages Offering) (fuel : ℕ) (w : W)
    → IsChain nil_uuid first rest
    → AnswersCatalog env c uuid_string json client_id f 100 ((nil_uuid, first) ∷ rest)
    → length (page_rows ((nil_uuid, first) ∷ rest)) < fuel
    → (collected : List Offering) × (missing : List Offering) × (e : Option Err) × (s : PageIterator
          W Offering
        × W)
      × (page_rows ((nil_uuid, first) ∷ rest) ≡ collected ++ missing)
      × (collect_pages fuel (client_offerings env c uuid_string json client_id f) w
          ≡ returned (collected, e) s)
      × (e ≡ none → missing ≡ [])
unfolding client_offerings
client_offerings_truncated env c uuid_string json client_id f first rest fuel w chain answers
      enough =
    collect_pages_truncated (λ n. n ≡ 100) _ (λ n. (nil_uuid, first) ∷ rest)
      (page_rows ((nil_uuid, first) ∷ rest)) fuel w refl
      (λ limit default. ((refl, refl, chain), refl))
      (catalog-MayServePages env c uuid_string json client_id f first rest answers) enough
