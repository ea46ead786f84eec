-- ===== src/Pagination/Following.antt =====
-- A PageIterator over a server whose answers name the next cursor stands before the rows that are still
-- to come, and Next moves it by one row.
pub mod MayFail
use walletd_go.Base.{
  ℕ, ◌+◌, Bool, true, false, List, [], ◌∷◌, ◌++◌, append_assoc, ◌≡◌, ◌⊎◌, some, none, sym, subst,
  refl, ap, ◌∙◌, inl, inr, ltb, length, drop, get_elem?-eq_some, drop_all, Bool-cases, ltb→lt, ℤ,
  arith,
}
use walletd_go.Uuid.{Uuid, nil_uuid}
use walletd_go.Errors.Chain.{Err}
use walletd_go.Errors.Result.{err}
use walletd_go.Pagination.Size.{bounded_page_size}
use walletd_go.Pagination.PageIterator.{PageIterator, Fetch, follow, receive, next, item, page_size}
use walletd_go.Pagination.Cursor.{Moves, Simulates, Fails, MaySimulate}
use walletd_go.Pagination.Shift.{drop-cons, nothing_left}
use walletd_go.Pagination.FollowPage.{page_state, item_shown, next_fetches, follow_page, first_item}
use walletd_go.Pagination.Chain.{
  Pages, page_rows, IsChain, Continues, IsPaged, ServesPages, FromEach, FromEach-append,
  AnswersPage, next_fine, advance_within, advance_done, advance_fetch,
}

module _ {W A : Type 0} (IsAsked : ℕ → Type 0) (fetch : Fetch W A) (pages : ℕ → Pages A)
    (listing : List A) where
  -- The iterator is new: its page size can still change, and the whole listing is to come.
  abbrev pub IsNew : PageIterator W A → List A → Type 0
  IsNew it left =
      (limit : ℕ) × IsAsked limit
      × (it ≡ page_state fetch limit nil_uuid [] 0 false false)
      × (left ≡ listing)

  -- The iterator has started on the pages of its page size, has fetched some of them, shown a part of the
  -- last one, and stands before the rest.
  abbrev pub IsWalking : PageIterator W A → List A → Type 0
  IsWalking it left =
      (limit : ℕ) × IsAsked limit
      × (before : Pages A) × (rest : Pages A) × (cursor : Uuid) × (page : List A) × (pos : ℕ)
      × (done : Bool) × (it ≡ page_state fetch limit cursor page pos done true)
      × (before ++ rest ≡ pages limit)
      × Continues done cursor rest
      × (left ≡ drop pos page ++ page_rows rest)

  abbrev pub Stands : PageIterator W A → List A → Type 0
  Stands it left = IsNew it left ⊎ IsWalking it left

  module _ (limit : ℕ) (asked : IsAsked limit) where
    abbrev pub state : Uuid → List A → ℕ → Bool → Bool → PageIterator W A
    state = page_state fetch limit

    abbrev pub Moved : PageIterator W A → W → List A → Type 0
    Moved it w left =
        Moves next item (λ (i : PageIterator W A). i.err) page_size Stands (next it w) left

    pub moves_within :
        (before rest : Pages A) (cursor : Uuid) (page : List A) (pos : ℕ) (done : Bool) (w : W)
        → before ++ rest ≡ pages limit
        → Continues done cursor rest
        → ltb pos (length page) ≡ true
        → Moved (state cursor page pos done true) w (drop pos page ++ page_rows rest)
    moves_within before rest cursor page pos done w split goes more =
        let it = state cursor page pos done true in
        let (a, e) = get_elem?-eq_some page pos (ltb→lt _ _ more) in
        rw (drop-cons page pos e) (
          state cursor page (pos + 1) done true,
          w,
          next_fine it w refl ∙ advance_within it w more,
          item_shown fetch limit cursor page pos done true a e,
          inr (limit, asked, before, rest, cursor, page, pos + 1, done, refl, split, goes, refl),
        )

    moves_page :
        (before rest : Pages A) (cursor c : Uuid) (a : A) (more page : List A) (pos : ℕ)
        (started : Bool) (w : W)
        → AnswersPage fetch limit ((c, a ∷ more) ∷ rest) w
        → before ++ ((c, a ∷ more) ∷ rest) ≡ pages limit
        → cursor ≡ c
        → IsChain c (a ∷ more) rest
        → ltb pos (length page) ≡ false
        → Moved (state cursor page pos false started) w ((a ∷ more) ++ page_rows rest)
    moves_page before rest cursor c a more page pos started w answers split at chain used =
        let (done, cursor', follows, goes) =
          follow_page fetch limit rest cursor c a more page pos at chain in
        (
          state cursor' (a ∷ more) 1 done true,
          (fetch w cursor limit).1,
          next_fetches fetch limit rest cursor c (a ∷ more) page pos started w answers at used
              ∙ ap (λ r. (r, (fetch w cursor limit).1)) follows,
          first_item fetch limit cursor' a more done,
          inr (
            limit,
            asked,
            before ++ (c, a ∷ more) ∷ [],
            rest,
            cursor',
            a ∷ more,
            1,
            done,
            refl,
            append_assoc before ((c, a ∷ more) ∷ []) rest ∙ split,
            goes,
            refl,
          ),
        )

    pub moves_used_up :
        (before rest : Pages A) (cursor : Uuid) (page : List A) (pos : ℕ) (done started : Bool)
        (w : W)
        → AnswersPage fetch limit rest w
        → before ++ rest ≡ pages limit
        → Continues done cursor rest
        → ltb pos (length page) ≡ false
        → (done ≡ true → started ≡ true)
        → Moved (state cursor page pos done started) w (page_rows rest)
    unfolding page_rows follow
    moves_used_up before [] cursor page pos done started w answers split over used begun =
        let it = state cursor page pos done started in
        (
          it,
          w,
          next_fine it w refl ∙ advance_done it w used over,
          inr (
            limit,
            asked,
            before,
            [],
            cursor,
            page,
            pos,
            done,
            ap (λ b. state cursor page pos done b) (begun over),
            split,
            over,
            nothing_left page pos used,
          ),
        )
    moves_used_up before ((c, a ∷ more) ∷ rest) cursor page pos done started w answers split
          (going, at, chain) used begun =
        rw going
          (moves_page before rest cursor c a more page pos started w answers split at chain used)
    moves_used_up before ((c, []) ∷ []) cursor page pos done started w answers split
          (going, at, chain) used begun =
        rw going (
          state cursor page pos true true,
          (fetch w cursor limit).1,
          next_fetches fetch limit [] cursor c [] page pos started w answers at used,
          inr (
            limit,
            asked,
            before ++ (c, []) ∷ [],
            [],
            cursor,
            page,
            pos,
            true,
            refl,
            append_assoc before ((c, []) ∷ []) [] ∙ split,
            refl,
            nothing_left page pos used,
          ),
        )
    moves_used_up before ((c, []) ∷ (d, later) ∷ rest) cursor page pos done started w answers split
          (going, at, chain) used begun =
        absurd (chain.1 refl)

    pub moves_state :
        (before rest : Pages A) (cursor : Uuid) (page : List A) (pos : ℕ) (done : Bool) (w : W)
        → AnswersPage fetch limit rest w
        → before ++ rest ≡ pages limit
        → Continues done cursor rest
        → Moved (state cursor page pos done true) w (drop pos page ++ page_rows rest)
    moves_state before rest cursor page pos done w answers split goes =
        elim (Bool-cases (ltb pos (length page))) [
          | inl more ↦ moves_within before rest cursor page pos done w split goes more
          | inr used ↦ rw (drop_all pos page (ground arith)) (
              moves_used_up before rest cursor page pos done true w answers split goes used
                λ over. refl)
        ]

    -- The first page of a new iterator.
    pub moves_new :
        (w : W)
        → AnswersPage fetch limit (pages limit) w
        → Continues false nil_uuid (pages limit)
        → Moved (state nil_uuid [] 0 false false) w (page_rows (pages limit))
    moves_new w answers goes =
        moves_used_up [] (pages limit) nil_uuid [] 0 false false w answers refl goes refl
          λ over. absurd cc

  FromEach-AnswersPage :
      (limit : ℕ) (rest : Pages A) (w : W)
      → FromEach (λ l. AnswersPage fetch limit l w) rest
      → AnswersPage fetch limit rest w
  FromEach-AnswersPage limit [] w h = tt
  FromEach-AnswersPage limit (p ∷ rest) w h = h.0

  serves_answers :
      (limit : ℕ) (before rest : Pages A) (w : W)
      → FromEach (λ l. AnswersPage fetch limit l w) (pages limit)
      → before ++ rest ≡ pages limit
      → AnswersPage fetch limit rest w
  serves_answers limit before rest w serves split = FromEach-AnswersPage limit rest w (
      FromEach-append (λ l. AnswersPage fetch limit l w) before rest
        (subst (FromEach (λ l. AnswersPage fetch limit l w)) (sym split) serves))

  pub failure-none : (it : PageIterator W A) (left : List A) → Stands it left → it.err ≡ none
  failure-none it left (inl (limit, asked, e, all)) = ap (λ i. i.err) e
  failure-none it left
        (inr (limit, asked, before, rest, cursor, page, pos, done, e, split, goes, remains)) =
      ap (λ i. i.err) e

  module _ (bounded : (n : ℤ) → IsAsked (bounded_page_size n)) where
    pub resized :
        (it : PageIterator W A) (n : ℤ) (left : List A)
        → Stands it left
        → Stands (page_size n it) left
    unfolding page_size
    resized it n left (inl (limit, asked, e, all)) =
        rw e (inl (bounded_page_size n, bounded n, refl, all))
    resized it n left
          (inr (limit, asked, before, rest, cursor, page, pos, done, e, split, goes, remains)) =
        rw e (inr (limit, asked, before, rest, cursor, page, pos, done, refl, split, goes, remains))

    module _ (paged : IsPaged IsAsked pages listing)
        (serves : ServesPages IsAsked fetch pages) where
      moves :
          (it : PageIterator W A) (w : W) (left : List A)
          → Stands it left
          → Moves next item (λ (i : PageIterator W A). i.err) page_size Stands (next it w) left
      moves it w left (inl (limit, asked, e, all)) =
          let (goes, whole) = paged limit asked in
          rw (e, all ∙ sym whole)
            (moves_new limit asked w
              (serves_answers limit [] (pages limit) w (serves w limit asked) refl) goes)
      moves it w left
            (inr (limit, asked, before, rest, cursor, page, pos, done, e, split, goes, remains)) =
          rw (e, remains)
            (moves_state limit asked before rest cursor page pos done w
              (serves_answers limit before rest w (serves w limit asked) split) split goes)

      -- Over a server that never fails, the iterator is a cursor in the list of the rows.
      pub Stands-Simulates :
          Simulates (next {W = W}) item (λ (i : PageIterator W A). i.err) page_size Stands
      Stands-Simulates = record { moves = moves; resized = resized; fine = failure-none }
