-- ===== src/Pagination/FollowPage.antt =====
-- The page that Next of PageIterator takes from a server whose answers name the next cursor.
use walletd_go.Base.{
  ℕ, ◌+◌, Bool, true, false, none, some, List, [], ◌∷◌, ◌≡◌, refl, sym, ap, ◌∙◌, subst, ltb, length,
  get_elem?, ne→==-false, arith,
}
use walletd_go.Uuid.{Uuid}
use walletd_go.Errors.Result.{ok}
use walletd_go.Pagination.PageIterator.{PageIterator, Fetch, follow, receive, next, item}
use walletd_go.Pagination.Chain.{
  Pages, next_cursor, IsChain, Continues, AnswersPage, next_fine, advance_fetch,
}

module _ {W A : Type 0} (fetch : Fetch W A) where
  -- The iterator in the middle of a walk.
  abbrev pub page_state : ℕ → Uuid → List A → ℕ → Bool → Bool → PageIterator W A
  page_state limit cursor page pos done started = record {
    fetch = fetch;
    limit = limit;
    cursor = cursor;
    page = page;
    pos = pos;
    done = done;
    err = none;
    started = started;
  }

module _ {W A : Type 0} (fetch : Fetch W A) (limit : ℕ) where
  abbrev pub state : Uuid → List A → ℕ → Bool → Bool → PageIterator W A
  state = page_state fetch limit

  pub item_shown :
      (cursor : Uuid) (page : List A) (pos : ℕ) (done started : Bool) (a : A)
      → get_elem? page pos ≡ some a
      → item (state cursor page (pos + 1) done started) ≡ some a
  unfolding item
  item_shown cursor page pos done started a e = ground arith

  -- `Next` where the page is used up and another one stands behind.
  pub next_fetches :
      (rest : Pages A) (cursor c : Uuid) (later page : List A) (pos : ℕ) (started : Bool) (w : W)
      → AnswersPage fetch limit ((c, later) ∷ rest) w
      → cursor ≡ c
      → ltb pos (length page) ≡ false
      → next (state cursor page pos false started) w ≡ (
        follow (state cursor page pos false true) later (next_cursor rest),
        (fetch w cursor limit).1,
      )
  unfolding receive
  next_fetches rest cursor c later page pos started w answers at shown =
      next_fine (state cursor page pos false started) w refl
      ∙ advance_fetch (state cursor page pos false started) w shown refl
      ∙ ap (λ r. (receive (state cursor page pos false true) r, (fetch w cursor limit).1))
          (subst (λ k. (fetch w k limit).0 ≡ ok (later, next_cursor rest)) (sym at) answers)

  -- What `Next` makes of a page with rows: it shows the first, and stands before the next page.
  pub follow_page :
      (rest : Pages A) (cursor c : Uuid) (a : A) (more page : List A) (pos : ℕ)
      → cursor ≡ c
      → IsChain c (a ∷ more) rest
      → (done : Bool) × (cursor' : Uuid) × (follow
            (state cursor page pos false true)
            (a ∷ more)
            (next_cursor rest)
          ≡ (true, state cursor' (a ∷ more) 1 done true))
        × Continues done cursor' rest
  unfolding follow
  follow_page [] cursor c a more page pos at chain = (true, cursor, refl, refl)
  follow_page ((d, later) ∷ rest) cursor c a more page pos at (moves, full, chain) =
      (false, d, rw (at, ne→==-false d c moves), (refl, refl, chain))

  pub first_item :
      (cursor : Uuid) (a : A) (more : List A) (done : Bool)
      → item (state cursor (a ∷ more) 1 done true) ≡ some a
  unfolding item
  first_item cursor a more done = refl
