-- ===== src/Pagination/Chain.antt =====
-- The pages that a server whose answers name the next cursor promises, and the steps of PageIterator.
use walletd_go.Base.{
  ℕ, ◌+◌, Bool, true, false, Option, none, some, List, [], ◌∷◌, ◌++◌, ◌≡◌, ◌≢◌, ◌⊎◌, ltb, length,
}
use walletd_go.Uuid.{Uuid, nil_uuid}
use walletd_go.Errors.Result.{ok, err}
use walletd_go.Errors.Chain.{Err}
use walletd_go.Pagination.PageIterator.{PageIterator, Fetch, receive, fetch_next, advance, next}

-- The pages of a listing, each with the cursor that fetches it.
abbrev pub Pages : Type 0 → Type 0
Pages A = List (Uuid × List A)

module _ {A : Type 0} where
  -- The cursor that a page's answer names: that of the page behind it.
  abbrev pub next_cursor : Pages A → Option Uuid
  next_cursor [] = none
  next_cursor ((c, page) ∷ rest) = some c

  unfoldable pub page_rows : Pages A → List A
  page_rows [] = []
  page_rows ((c, page) ∷ rest) = page ++ page_rows rest

  -- Behind a page come other cursors than its own, and a page with one behind it is not empty.
  abbrev pub IsChain : Uuid → List A → Pages A → Type 0
  IsChain c page [] = Unit
  IsChain c page ((d, later) ∷ rest) = (d ≢ c) × (page ≢ []) × IsChain d later rest

  -- Where the pages behind the current one begin: their cursor is the iterator's, and the walk is done
  -- exactly if there are none.
  abbrev pub Continues : Bool → Uuid → Pages A → Type 0
  Continues done cursor [] = done ≡ true
  Continues done cursor ((c, page) ∷ rest) = (done ≡ false) × (cursor ≡ c) × IsChain c page rest

-- The pages that a listing is cut into, for every page size that is asked for: they begin with no cursor,
-- form a chain, and hold the rows of the listing, whatever the page size. Their number, their rows and their
-- cursors depend on it.
abbrev pub IsPaged : {A : Type 0} → (ℕ → Type 0) → (ℕ → Pages A) → List A → Type 0
IsPaged IsAsked pages listing =
    (limit : ℕ)
    → IsAsked limit
    → Continues false nil_uuid (pages limit) × (page_rows (pages limit) ≡ listing)

-- The fetch of the first of some pages keeps the contract: it answers the page, with the next cursor.
abbrev pub AnswersPage : {W A : Type 0} → Fetch W A → ℕ → Pages A → W → Type 0
AnswersPage fetch limit [] w = Unit
AnswersPage fetch limit ((c, page) ∷ rest) w = (fetch w c limit).0 ≡ ok (page, next_cursor rest)

-- The same of a server that may also fail, with any error.
abbrev pub MayAnswerPage : {W A : Type 0} → Fetch W A → ℕ → Pages A → W → Type 0
MayAnswerPage fetch limit [] w = Unit
MayAnswerPage fetch limit ((c, page) ∷ rest) w =
    ((fetch w c limit).0 ≡ ok (page, next_cursor rest))
    ⊎ ((e : Err) × ((fetch w c limit).0 ≡ err e))

-- Something of the pages from each one on.
abbrev pub FromEach : {A : Type 0} → (Pages A → Type 0) → Pages A → Type 0
FromEach P [] = Unit
FromEach P (p ∷ rest) = P (p ∷ rest) × FromEach P rest

pub FromEach-append :
    {A : Type 0} (P : Pages A → Type 0) (before rest : Pages A)
    → FromEach P (before ++ rest)
    → FromEach P rest
FromEach-append P [] rest h = h
FromEach-append P (p ∷ before) rest h = FromEach-append P before rest h.1

-- What the contract of such a listing says: with a page size that is asked for, every cursor of the pages of
-- that size fetches its page.
abbrev pub ServesPages : {W A : Type 0} → (ℕ → Type 0) → Fetch W A → (ℕ → Pages A) → Type 0
ServesPages {W} IsAsked fetch pages =
    (w : W) (limit : ℕ)
    → IsAsked limit
    → FromEach (λ rest. AnswersPage fetch limit rest w) (pages limit)

abbrev pub MayServePages : {W A : Type 0} → (ℕ → Type 0) → Fetch W A → (ℕ → Pages A) → Type 0
MayServePages {W} IsAsked fetch pages =
    (w : W) (limit : ℕ)
    → IsAsked limit
    → FromEach (λ rest. MayAnswerPage fetch limit rest w) (pages limit)

module _ {W A : Type 0} (it : PageIterator W A) (w : W) where
  pub next_fine : it.err ≡ none → next it w ≡ advance it w
  unfolding next
  next_fine fine = rw fine

  pub advance_within :
      ltb it.pos (length it.page) ≡ true
      → advance it w ≡ ((true, record it { pos = it.pos + 1 }), w)
  unfolding advance
  advance_within more = rw more

  pub advance_done :
      ltb it.pos (length it.page) ≡ false → it.done ≡ true → advance it w ≡ ((false, it), w)
  unfolding advance
  advance_done shown done = rw (shown, done)

  pub advance_fetch :
      ltb it.pos (length it.page) ≡ false
      → it.done ≡ false
      → advance it w ≡ (
        receive (record it { started = true }) (it.fetch w it.cursor it.limit).0,
        (it.fetch w it.cursor it.limit).1,
      )
  unfolding advance fetch_next
  advance_fetch shown going = rw (shown, going)
