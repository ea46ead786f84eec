-- ===== src/Pagination/Standing/MayFail.antt =====
-- Iterator over a server that may fail at any fetch.
use walletd_go.Base.{
  ℕ, suc, Bool, true, false, List, ◌++◌, ◌≡◌, ◌⊎◌, some, refl, ap, ◌∙◌, inl, inr, ltb, length, drop,
  drop_all, Bool-cases, arith,
}
use walletd_go.Uuid.{Uuid, nil_uuid}
use walletd_go.Errors.Chain.{Err}
use walletd_go.Errors.Result.{err}
use walletd_go.Pagination.Size.{IsPageSize}
use walletd_go.Pagination.Iterator.{Iterator, Fetch, receive, next, item, page_size}
use walletd_go.Pagination.Steps.{next_fine, advance_done, advance_fetch}
use walletd_go.Pagination.Cursor.{Fails, MaySimulate}
use walletd_go.Pagination.Shift.{nothing_left}
use walletd_go.Pagination.NextPage.{unfetched}
use walletd_go.Pagination.Listing.{Group, rows, last_id}
use walletd_go.Pagination.Accept.{MayServe, IsListing}
use walletd_go.Pagination.Standing.{Stands, state, Moved, moves_within, moves_state}

module _ {W A : Type 0} (fetch : Fetch W A) (key : A → Uuid) (groups : List (Group A))
    (h : IsListing key groups) where
  abbrev Failed : Iterator W A → W → Type 0
  Failed it w = Fails next item (λ (i : Iterator W A). i.err) page_size (next it w)

  -- A fetch that fails stops the walk, unless there was none to make.
  fails_used_up :
      (m : ℕ) (fits : IsPageSize (suc m)) (served rest : List (Group A)) (page : List A) (pos : ℕ)
      (done started : Bool) (w : W) (x : Err)
      → (fetch w (last_id nil_uuid served) (suc m)).0 ≡ err x
      → served ++ rest ≡ groups
      → ltb pos (length page) ≡ false
      → Moved fetch key groups h m
          (state fetch key groups h m served page pos done started)
          w
          (rows (unfetched done rest))
        ⊎ Failed (state fetch key groups h m served page pos done started) w
  unfolding rows receive
  fails_used_up m fits served rest page pos true started w x fails split used =
      let it = state fetch key groups h m served page pos true started in
      inl (
        it,
        w,
        next_fine it w refl ∙ advance_done it w used refl,
        (m, fits, served, rest, page, pos, true, started, refl, split, nothing_left page pos used),
      )
  fails_used_up m fits served rest page pos false started w x fails split used =
      let it = state fetch key groups h m served page pos false started in
      inr (
        record (state fetch key groups h m served page pos false true) { err = some x },
        (fetch w (last_id nil_uuid served) (suc m)).1,
        x,
        next_fine it w refl
            ∙ advance_fetch it w used refl
            ∙ ap
                (λ r. (
                  receive (state fetch key groups h m served page pos false true) r,
                  (fetch w (last_id nil_uuid served) (suc m)).1,
                ))
                fails,
        refl,
      )

  fails_state :
      (m : ℕ) (fits : IsPageSize (suc m)) (served rest : List (Group A)) (page : List A) (pos : ℕ)
      (done started : Bool) (w : W) (x : Err)
      → (fetch w (last_id nil_uuid served) (suc m)).0 ≡ err x
      → served ++ rest ≡ groups
      → Moved fetch key groups h m
          (state fetch key groups h m served page pos done started)
          w
          (drop pos page ++ rows (unfetched done rest))
        ⊎ Failed (state fetch key groups h m served page pos done started) w
  fails_state m fits served rest page pos done started w x fails split =
      elim (Bool-cases (ltb pos (length page))) [
        | inl more ↦
            inl (
              moves_within fetch key groups h m fits served rest page pos done started w split more)
        | inr used ↦
            rw (drop_all pos page (ground arith))
              (fails_used_up m fits served rest page pos done started w x fails split used)
      ]

  may_state :
      (m : ℕ) (fits : IsPageSize (suc m)) (served rest : List (Group A)) (page : List A) (pos : ℕ)
      (done started : Bool) (w : W)
      → MayServe fetch groups
      → served ++ rest ≡ groups
      → Moved fetch key groups h m
          (state fetch key groups h m served page pos done started)
          w
          (drop pos page ++ rows (unfetched done rest))
        ⊎ Failed (state fetch key groups h m served page pos done started) w
  may_state m fits served rest page pos done started w may split =
      elim (may w (last_id nil_uuid served) (suc m) fits) [
        | inl answers ↦ inl (
            moves_state fetch key groups h m fits served rest page pos done started w answers split)
        | inr (x, fails) ↦ fails_state m fits served rest page pos done started w x fails split
      ]

  -- Over a server that may fail, it is one until the failure.
  pub Stands-MaySimulate :
      MayServe fetch groups
      → MaySimulate
          (next {W = W})
          item
          (λ (i : Iterator W A). i.err)
          page_size
          (Stands fetch key groups h)
  Stands-MaySimulate may = record {
    moves = λ it w left (m, fits, served, rest, page, pos, done, started, e, split, remains).
        rw (e, remains) (may_state m fits served rest page pos done started w may split);
    fine = λ it left (m, fits, served, rest, page, pos, done, started, e, split, remains).
        ap (λ i. i.err) e;
  }
