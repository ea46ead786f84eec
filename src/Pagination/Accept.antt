-- ===== src/Pagination/Accept.antt =====
-- The contract of a cursor listing, and what `Next` of Iterator makes of a page that keeps it.
use walletd_go.Base.{
  ℕ, suc, ◌<◌, Bool, true, false, none, List, [], ◌∷◌, ◌++◌, map, ◌≡◌, ◌⊎◌, sym, inl, inr, ltb,
  length, last_or, Bool-cases, All-middle, true-ne-false, ne→==-false, arith,
}
use walletd_go.Uuid.{Uuid, nil_uuid}
use walletd_go.Errors.Result.{ok, err}
use walletd_go.Errors.Chain.{Err}
use walletd_go.Pagination.Size.{IsPageSize}
use walletd_go.Pagination.Iterator.{Iterator, Fetch, accept, take_page, distinct_keys}
use walletd_go.Pagination.Listing.{
  Group, rows, page_after, HasDistinctKeys, Differs, IsKeyed, last_id, last_id-moves,
  key-last_or-rows, HasDistinctKeys-middle,
}
use walletd_go.Pagination.Distinct.{length-distinct_keys}

-- What the contract of a cursor listing says: every page holds the rows of the next keys, as many as the
-- limit, which is from 1 to 100. Of another limit it says nothing.
abbrev pub Serves : {W A : Type 0} → Fetch W A → List (Group A) → Type 0
Serves {W} fetch groups =
    (w : W) (cursor : Uuid) (limit : ℕ)
    → IsPageSize limit
    → (fetch w cursor limit).0 ≡ ok (page_after groups cursor limit)

-- The same of a server that may also fail, at any fetch and with any error.
abbrev pub MayServe : {W A : Type 0} → Fetch W A → List (Group A) → Type 0
MayServe {W} fetch groups =
    (w : W) (cursor : Uuid) (limit : ℕ)
    → IsPageSize limit
    → ((fetch w cursor limit).0 ≡ ok (page_after groups cursor limit))
      ⊎ ((e : Err) × ((fetch w cursor limit).0 ≡ err e))

-- The listing as the iterator needs it: distinct keys that are not the nil UUID, on every row.
pub record IsListing {A : Type 0} (key : A → Uuid) (groups : List (Group A)) : Type 0 where
  pub distinct : HasDistinctKeys groups
  pub not_nil : Differs nil_uuid groups
  pub keyed : IsKeyed key groups

module _ {W A : Type 0} (fetch : Fetch W A) (key : A → Uuid) (limit : ℕ) where
  -- The iterator in the middle of a walk.
  abbrev pub running : Uuid → List A → ℕ → Bool → Bool → Iterator W A
  running cursor page pos done started = record {
    fetch = fetch;
    key = key;
    limit = limit;
    cursor = cursor;
    page = page;
    pos = pos;
    done = done;
    err = none;
    started = started;
  }

  -- The page that `Next` takes: `taken` are its groups behind the first and `left` those behind it.
  -- It is short exactly if the walk is then done.
  pub accept_page :
      (served taken left : List (Group A)) (g : Group A) (page : List A) (pos : ℕ)
      → IsListing key (served ++ (g ∷ (taken ++ left)))
      → (done : Bool) × (accept
            (running (last_id nil_uuid served) page pos false true)
            g.first
            (g.more ++ rows taken)
          ≡ (true, running (last_id g.id taken) (g.first ∷ (g.more ++ rows taken)) 1 done true))
        × (done ≡ true → suc (length taken) < limit)
  unfolding accept take_page rows
  accept_page served taken left g page pos h =
      let keyed = All-middle _ served (g ∷ taken) left h.keyed in
      let count : length (distinct_keys (map key (g.first ∷ (g.more ++ rows taken))) [])
          ≡ suc (length taken) =
        length-distinct_keys key (g ∷ taken)
          (HasDistinctKeys-middle served (g ∷ taken) left h.distinct) keyed in
      let last : key (last_or g.first (g.more ++ rows taken)) ≡ last_id g.id taken =
        key-last_or-rows key g.first (g ∷ taken) keyed.0.0 keyed in
      elim (Bool-cases (ltb (suc (length taken)) limit)) [
        | inl short ↦ (true, rw (count, short, last), λ _. ground arith)
        | inr full ↦
            let moved = last_id-moves nil_uuid served g taken left h.not_nil h.distinct in
            (
              false,
              rw (count, full, last, ne→==-false _ _ moved),
              λ e. absurd (true-ne-false (sym e)),
            )
      ]
