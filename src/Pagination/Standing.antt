-- ===== src/Pagination/Standing.antt =====
-- An iterator over a server that keeps the contract stands before the rows that are still to come, and
-- Next moves it by one row.
pub mod MayFail
use walletd_go.Base.{
  ℕ, zero, suc, ◌+◌, ◌<◌, Bool, true, false, List, [], ◌∷◌, ◌++◌, append_assoc, ◌≡◌, ◌⊎◌, some,
  refl, sym, ap, ◌∙◌, inl, inr, ltb, length, take, drop, ℤ, get_elem?-eq_some, take-append-drop,
  drop_all, Bool-cases, ltb→lt, arith,
}
use walletd_go.Uuid.{Uuid, nil_uuid}
use walletd_go.Errors.Chain.{Err}
use walletd_go.Errors.Result.{err}
use walletd_go.Pagination.Size.{IsPageSize, bounded_page_size-positive}
use walletd_go.Pagination.Iterator.{Iterator, Fetch, new_iterator, receive, next, item, page_size}
use walletd_go.Pagination.Steps.{next_fine, advance_within, advance_done, advance_fetch}
use walletd_go.Pagination.Cursor.{Moves, Simulates, Fails, MaySimulate}
use walletd_go.Pagination.Shift.{drop-cons, nothing_left}
use walletd_go.Pagination.NextPage
use walletd_go.Pagination.NextPage.{
  unfetched, item_shown, next_fetches, left_behind, next_page, first_item,
}
use walletd_go.Pagination.Listing.{Group, rows, last_id}
use walletd_go.Pagination.Accept.{Serves, MayServe, IsListing, running}

module _ {W A : Type 0} (fetch : Fetch W A) (key : A → Uuid) (groups : List (Group A))
    (h : IsListing key groups) where
  -- The iterator has served some groups, shown a part of its page, and stands before the rest.
  abbrev pub Stands : Iterator W A → List A → Type 0
  Stands it left =
      (m : ℕ) × (fits : IsPageSize (suc m)) × (served : List (Group A)) × (rest : List (Group A))
      × (page : List A) × (pos : ℕ) × (done : Bool) × (started : Bool) × (it
          ≡ running fetch key (suc m) (last_id nil_uuid served) page pos done started)
      × (served ++ rest ≡ groups)
      × (left ≡ drop pos page ++ rows (unfetched done rest))

  module _ (m : ℕ) where
    abbrev pub state : List (Group A) → List A → ℕ → Bool → Bool → Iterator W A
    state = NextPage.state fetch key groups h m

    abbrev Answers : List (Group A) → W → Type 0
    Answers = NextPage.Answers fetch key groups h m

    abbrev pub Moved : Iterator W A → W → List A → Type 0
    Moved it w left =
        Moves next item (λ (i : Iterator W A). i.err) page_size Stands (next it w) left

  module _ (m : ℕ) (fits : IsPageSize (suc m)) where
    pub moves_within :
        (served rest : List (Group A)) (page : List A) (pos : ℕ) (done started : Bool) (w : W)
        → served ++ rest ≡ groups
        → ltb pos (length page) ≡ true
        → Moved m
            (state m served page pos done started)
            w
            (drop pos page ++ rows (unfetched done rest))
    moves_within served rest page pos done started w split more =
        let it = state m served page pos done started in
        let (a, e) = get_elem?-eq_some page pos (ltb→lt _ _ more) in
        rw (drop-cons page pos e) (
          state m served page (pos + 1) done started,
          w,
          next_fine it w refl ∙ advance_within it w more,
          item_shown fetch key groups h m served page pos done started a e,
          (m, fits, served, rest, page, pos + 1, done, started, refl, split, refl),
        )

    moves_page :
        (served : List (Group A)) (g : Group A) (gs : List (Group A)) (page : List A) (pos : ℕ)
        (started : Bool) (w : W)
        → Answers m served w
        → served ++ (g ∷ gs) ≡ groups
        → ltb pos (length page) ≡ false
        → Moved m (state m served page pos false started) w (rows (g ∷ gs))
    unfolding rows
    moves_page served g gs page pos started w answers split used =
        let (done, shows, short) =
          next_page fetch key groups h m served g gs page pos started w answers split used in
        let page' : List A = g.first ∷ (g.more ++ rows (take m gs)) in
        (
          state m (served ++ (g ∷ take m gs)) page' 1 done true,
          (fetch w (last_id nil_uuid served) (suc m)).1,
          shows,
          first_item fetch key groups h m (served ++ (g ∷ take m gs)) g (g.more ++ rows (take m gs))
              done,
          (
            m,
            fits,
            served ++ (g ∷ take m gs),
            drop m gs,
            page',
            1,
            done,
            true,
            refl,
            append_assoc served (g ∷ take m gs) (drop m gs)
                ∙ ap (λ t. served ++ (g ∷ t)) (take-append-drop m gs)
                ∙ split,
            sym (left_behind fetch key groups h m g gs done short),
          ),
        )

    moves_used_up :
        (served rest : List (Group A)) (page : List A) (pos : ℕ) (done started : Bool) (w : W)
        → Answers m served w
        → served ++ rest ≡ groups
        → ltb pos (length page) ≡ false
        → Moved m (state m served page pos done started) w (rows (unfetched done rest))
    unfolding rows receive
    moves_used_up served rest page pos true started w answers split used =
        let it = state m served page pos true started in
        (
          it,
          w,
          next_fine it w refl ∙ advance_done it w used refl,
          (
            m,
            fits,
            served,
            rest,
            page,
            pos,
            true,
            started,
            refl,
            split,
            nothing_left page pos used,
          ),
        )
    moves_used_up served [] page pos false started w answers split used = (
      state m served page pos true true,
      (fetch w (last_id nil_uuid served) (suc m)).1,
      next_fetches fetch key groups h m served [] page pos started w answers split used,
      (m, fits, served, [], page, pos, true, true, refl, split, nothing_left page pos used),
    )
    moves_used_up served (g ∷ gs) page pos false started w answers split used =
        moves_page served g gs page pos started w answers split used

    pub moves_state :
        (served rest : List (Group A)) (page : List A) (pos : ℕ) (done started : Bool) (w : W)
        → Answers m served w
        → served ++ rest ≡ groups
        → Moved m
            (state m served page pos done started)
            w
            (drop pos page ++ rows (unfetched done rest))
    moves_state served rest page pos done started w answers split =
        elim (Bool-cases (ltb pos (length page))) [
          | inl more ↦ moves_within served rest page pos done started w split more
          | inr used ↦
              rw (drop_all pos page (ground arith))
                (moves_used_up served rest page pos done started w answers split used)
        ]

  pub resized :
      (it : Iterator W A) (n : ℤ) (left : List A) → Stands it left → Stands (page_size n it) left
  unfolding page_size
  resized it n left (m, fits, served, rest, page, pos, done, true, e, split, remains) =
      rw e (m, fits, served, rest, page, pos, done, true, refl, split, remains)
  resized it n left (m, fits, served, rest, page, pos, done, false, e, split, remains) =
      let (k, size, fits') = bounded_page_size-positive n in
      rw (e, size) (k, fits', served, rest, page, pos, done, false, refl, split, remains)

  -- Over a server that never fails, the iterator is a cursor in the list of the rows.
  pub Stands-Simulates :
      Serves fetch groups
      → Simulates (next {W = W}) item (λ (i : Iterator W A). i.err) page_size Stands
  Stands-Simulates serves = record {
    moves = λ it w left (m, fits, served, rest, page, pos, done, started, e, split, remains).
        rw (e, remains)
          (moves_state m fits served rest page pos done started w (serves w _ _ fits) split);
    resized = resized;
    fine = λ it left (m, fits, served, rest, page, pos, done, started, e, split, remains).
        ap (λ i. i.err) e;
  }

  pub new_iterator-Stands :
      (limit : ℕ)
      → IsPageSize limit
      → Stands (record (new_iterator fetch key) { limit = limit }) (rows groups)
  new_iterator-Stands zero fits = absurd (omega (arith, fits.0))
  new_iterator-Stands (suc m) fits = (m, fits, [], groups, [], 0, false, false, refl, refl, refl)
