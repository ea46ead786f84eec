-- ===== src/Pagination/NextPage.antt =====
-- The page that Next of Iterator takes from a server that keeps the contract, and what is behind it.
use walletd_go.Base.{
  ℕ, suc, ◌+◌, ◌<◌, Bool, true, false, some, List, [], ◌∷◌, ◌++◌, append_assoc, ◌≡◌, refl, sym, ap,
  ◌∙◌, subst, ltb, length, take, drop, get_elem?, take-append-drop, drop-eq_nil, arith,
}
use walletd_go.Uuid.{Uuid, nil_uuid}
use walletd_go.Errors.Result.{ok}
use walletd_go.Pagination.Iterator.{Iterator, Fetch, receive, next, item}
use walletd_go.Pagination.Steps.{next_fine, advance_fetch}
use walletd_go.Pagination.Listing.{
  Group, rows, rows-append, page_after, after, HasDistinctKeys, Differs, last_id, last_id-append,
  after-last_id,
}
use walletd_go.Pagination.Accept.{IsListing, running, accept_page}

-- What a walk has still to fetch.
abbrev pub unfetched : {A : Type 0} → Bool → List (Group A) → List (Group A)
unfetched true rest = []
unfetched false rest = rest

module _ {W A : Type 0} (fetch : Fetch W A) (key : A → Uuid) (groups : List (Group A))
    (h : IsListing key groups) (m : ℕ) where
  abbrev pub state : List (Group A) → List A → ℕ → Bool → Bool → Iterator W A
  state served = running fetch key (suc m) (last_id nil_uuid served)

  pub item_shown :
      (served : List (Group A)) (page : List A) (pos : ℕ) (done started : Bool) (a : A)
      → get_elem? page pos ≡ some a
      → item (state served page (pos + 1) done started) ≡ some a
  unfolding item
  item_shown served page pos done started a e = ground arith

  -- The fetch from here keeps the contract.
  abbrev pub Answers : List (Group A) → W → Type 0
  Answers served w =
      (fetch w (last_id nil_uuid served) (suc m)).0
      ≡ ok (page_after groups (last_id nil_uuid served) (suc m))

  -- The answer of the fetch that `Next` makes where the page is used up.
  answer_lem :
      (served rest : List (Group A)) (w : W)
      → Answers served w
      → served ++ rest ≡ groups
      → (fetch w (last_id nil_uuid served) (suc m)).0 ≡ ok (rows (take (suc m) rest))
  unfolding page_after
  answer_lem served rest w answers split =
      answers
      ∙ ap (λ gs. ok (rows (take (suc m) gs)))
          (subst (λ gs. after (last_id nil_uuid served) gs ≡ rest) split
            (after-last_id served rest (subst (λ gs. HasDistinctKeys gs) (sym split) h.distinct)
              (subst (λ gs. Differs nil_uuid gs) (sym split) h.not_nil)))

  -- `Next` where the page is used up.
  pub next_fetches :
      (served rest : List (Group A)) (page : List A) (pos : ℕ) (started : Bool) (w : W)
      → Answers served w
      → served ++ rest ≡ groups
      → ltb pos (length page) ≡ false
      → next (state served page pos false started) w ≡ (
        receive (state served page pos false true) (ok (rows (take (suc m) rest))),
        (fetch w (last_id nil_uuid served) (suc m)).1,
      )
  next_fetches served rest page pos started w answers split shown =
      let it = state served page pos false started in
      next_fine it w refl
      ∙ advance_fetch it w shown refl
      ∙ ap
          (λ r. (
            receive (state served page pos false true) r,
            (fetch w (last_id nil_uuid served) (suc m)).1,
          ))
          (answer_lem served rest w answers split)

  -- What is left behind a page is what was behind it before, whether or not the walk is then done.
  pub left_behind :
      (g : Group A) (gs : List (Group A)) (done : Bool)
      → (done ≡ true → suc (length (take m gs)) < suc m)
      → (g.more ++ rows (take m gs)) ++ rows (unfetched done (drop m gs)) ≡ g.more ++ rows gs
  left_behind g gs done short =
      ap (λ l. (g.more ++ rows (take m gs)) ++ rows l) (unfetched_all done short)
      ∙ append_assoc g.more (rows (take m gs)) (rows (drop m gs))
      ∙ ap (λ l. g.more ++ l)
          (sym (rows-append (take m gs) (drop m gs)) ∙ ap rows (take-append-drop m gs))
    where
      unfetched_all :
          (d : Bool)
          → (d ≡ true → suc (length (take m gs)) < suc m)
          → unfetched d (drop m gs) ≡ drop m gs
      unfetched_all true short = sym (drop-eq_nil m gs (omega (arith, short refl)))
      unfetched_all false short = refl

  -- `Next` where the page is used up and more groups follow: the first row of their page is shown.
  pub next_page :
      (served : List (Group A)) (g : Group A) (gs : List (Group A)) (page : List A) (pos : ℕ)
      (started : Bool) (w : W)
      → Answers served w
      → served ++ (g ∷ gs) ≡ groups
      → ltb pos (length page) ≡ false
      → (done : Bool) × (next (state served page pos false started) w ≡ (
        (
          true,
          state (served ++ (g ∷ take m gs)) (g.first ∷ (g.more ++ rows (take m gs))) 1 done true,
        ),
        (fetch w (last_id nil_uuid served) (suc m)).1,
      ))
        × (done ≡ true → suc (length (take m gs)) < suc m)
  unfolding rows receive
  next_page served g gs page pos started w answers split shown =
      let cut : served ++ (g ∷ (take m gs ++ drop m gs)) ≡ groups =
        ap (λ t. served ++ (g ∷ t)) (take-append-drop m gs) ∙ split in
      let (done, taken, short) =
        accept_page fetch key (suc m) served (take m gs) (drop m gs) g page pos
          (subst (λ t. IsListing key t) (sym cut) h) in
      let page' : List A = g.first ∷ (g.more ++ rows (take m gs)) in
      let w' = (fetch w (last_id nil_uuid served) (suc m)).1 in
      (
        done,
        next_fetches served (g ∷ gs) page pos started w answers split shown
            ∙ ap (λ r. (r, w')) taken
            ∙ ap (λ c. ((true, running fetch key (suc m) c page' 1 done true), w'))
                (sym (last_id-append nil_uuid served (g ∷ take m gs))),
        short,
      )

  pub first_item :
      (served : List (Group A)) (g : Group A) (more : List A) (done : Bool)
      → item (state served (g.first ∷ more) 1 done true) ≡ some g.first
  unfolding item
  first_item served g more done = refl
