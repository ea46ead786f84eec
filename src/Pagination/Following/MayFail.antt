-- ===== src/Pagination/Following/MayFail.antt =====
-- PageIterator over a server that may fail at any fetch.
use walletd_go.Base.{
  ℕ, Bool, true, false, List, [], ◌∷◌, ◌++◌, ◌≡◌, ◌⊎◌, some, sym, subst, refl, ap, ◌∙◌, inl, inr,
  ltb, length, drop, Bool-cases, drop_all, arith,
}
use walletd_go.Uuid.{Uuid, nil_uuid}
use walletd_go.Errors.Chain.{Err}
use walletd_go.Errors.Result.{err}
use walletd_go.Pagination.PageIterator.{PageIterator, Fetch, receive, next, item, page_size}
use walletd_go.Pagination.Cursor.{Moves, Fails, MaySimulate}
use walletd_go.Pagination.Chain.{
  Pages, page_rows, Continues, IsPaged, MayServePages, MayAnswerPage, FromEach, FromEach-append,
  next_fine, advance_fetch,
}
use walletd_go.Pagination.Following.{
  Stands, state, Moved, moves_within, moves_used_up, failure-none,
}

module _ {W A : Type 0} (IsAsked : ℕ → Type 0) (fetch : Fetch W A) (pages : ℕ → Pages A)
    (listing : List A) where
  abbrev Failed : PageIterator W A → W → Type 0
  Failed it w = Fails next item (λ (i : PageIterator W A). i.err) page_size (next it w)

  module _ (limit : ℕ) (asked : IsAsked limit) where
    abbrev at_page : Uuid → List A → ℕ → Bool → Bool → PageIterator W A
    at_page = state IsAsked fetch pages listing limit asked

    abbrev Goes : PageIterator W A → W → List A → Type 0
    Goes it w left = Moved IsAsked fetch pages listing limit asked it w left ⊎ Failed it w

    -- A fetch that fails stops the walk.
    fails_used_up :
        (cursor c : Uuid) (page : List A) (pos : ℕ) (started : Bool) (w : W) (x : Err)
        → (fetch w c limit).0 ≡ err x
        → cursor ≡ c
        → ltb pos (length page) ≡ false
        → Failed (at_page cursor page pos false started) w
    unfolding receive
    fails_used_up cursor c page pos started w x fails at used =
        let it = at_page cursor page pos false started in
        (
          record (at_page cursor page pos false true) { err = some x },
          (fetch w cursor limit).1,
          x,
          next_fine it w refl
              ∙ advance_fetch it w used refl
              ∙ ap (λ r. (receive (at_page cursor page pos false true) r, (fetch w cursor limit).1))
                  (subst (λ k. (fetch w k limit).0 ≡ err x) (sym at) fails),
          refl,
        )

    may_used_up :
        (before rest : Pages A) (cursor : Uuid) (page : List A) (pos : ℕ) (done started : Bool)
        (w : W)
        → MayAnswerPage fetch limit rest w
        → before ++ rest ≡ pages limit
        → Continues done cursor rest
        → ltb pos (length page) ≡ false
        → (done ≡ true → started ≡ true)
        → Goes (at_page cursor page pos done started) w (page_rows rest)
    may_used_up before [] cursor page pos done started w may split over used begun = inl (
        moves_used_up IsAsked fetch pages listing limit asked before [] cursor page pos done started
          w tt split over used begun)
    may_used_up before ((c, later) ∷ rest) cursor page pos done started w (inl answers) split
          (going, at, chain) used begun =
        inl (
          moves_used_up IsAsked fetch pages listing limit asked before ((c, later) ∷ rest) cursor
            page pos done started w answers split (going, at, chain) used begun)
    may_used_up before ((c, later) ∷ rest) cursor page pos done started w (inr (x, fails)) split
          (going, at, chain) used begun =
        inr (rw going (fails_used_up cursor c page pos started w x fails at used))

    may_state :
        (before rest : Pages A) (cursor : Uuid) (page : List A) (pos : ℕ) (done : Bool) (w : W)
        → MayAnswerPage fetch limit rest w
        → before ++ rest ≡ pages limit
        → Continues done cursor rest
        → Goes (at_page cursor page pos done true) w (drop pos page ++ page_rows rest)
    may_state before rest cursor page pos done w may split goes =
        elim (Bool-cases (ltb pos (length page))) [
          | inl more ↦ inl (
              moves_within IsAsked fetch pages listing limit asked before rest cursor page pos done
                w split goes more)
          | inr used ↦
              rw (drop_all pos page (ground arith)) (
                may_used_up before rest cursor page pos done true w may split goes used
                  λ over. refl)
        ]

  FromEach-MayAnswerPage :
      (limit : ℕ) (rest : Pages A) (w : W)
      → FromEach (λ l. MayAnswerPage fetch limit l w) rest
      → MayAnswerPage fetch limit rest w
  FromEach-MayAnswerPage limit [] w h = tt
  FromEach-MayAnswerPage limit (p ∷ rest) w h = h.0

  may_answer :
      (limit : ℕ) (before rest : Pages A) (w : W)
      → FromEach (λ l. MayAnswerPage fetch limit l w) (pages limit)
      → before ++ rest ≡ pages limit
      → MayAnswerPage fetch limit rest w
  may_answer limit before rest w may split = FromEach-MayAnswerPage limit rest w (
      FromEach-append (λ l. MayAnswerPage fetch limit l w) before rest
        (subst (FromEach (λ l. MayAnswerPage fetch limit l w)) (sym split) may))

  module _ (paged : IsPaged IsAsked pages listing) (may : MayServePages IsAsked fetch pages) where
    moves :
        (it : PageIterator W A) (w : W) (left : List A)
        → Stands IsAsked fetch pages listing it left
        → Moves next item
            (λ (i : PageIterator W A). i.err)
            page_size
            (Stands IsAsked fetch pages listing)
            (next it w)
            left
          ⊎ Failed it w
    moves it w left (inl (limit, asked, e, all)) =
        let (goes, whole) = paged limit asked in
        rw (e, all ∙ sym whole)
          (may_used_up limit asked [] (pages limit) nil_uuid [] 0 false false w
            (may_answer limit [] (pages limit) w (may w limit asked) refl) refl goes refl
            λ over. absurd cc)
    moves it w left
          (inr (limit, asked, before, rest, cursor, page, pos, done, e, split, goes, remains)) =
        rw (e, remains)
          (may_state limit asked before rest cursor page pos done w
            (may_answer limit before rest w (may w limit asked) split) split goes)

    -- Over a server that may fail, it is a cursor in the list of the rows until the failure.
    pub Stands-MaySimulate :
        MaySimulate
          (next {W = W})
          item
          (λ (i : PageIterator W A). i.err)
          page_size
          (Stands IsAsked fetch pages listing)
    Stands-MaySimulate = record { moves = moves; fine = failure-none IsAsked fetch pages listing }
