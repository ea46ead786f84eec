-- ===== src/Pagination/Iterator.antt =====
-- Iterator of pagination.go: the listing with an inferred end.
use walletd_go.Base.{
  ℕ, ◌+◌, ◌-◌, Bool, true, false, Option, none, some, List, [], ◌∷◌, map, ℤ, ltb, ◌==◌, ◌||◌,
  if◌then◌else◌, length, get_elem?, last_or,
}
use walletd_go.Errors.Sentinel.{Sentinel}
use walletd_go.Errors.Chain.{Err}
use walletd_go.Errors.Result.{Result, ok, err}
use walletd_go.Pagination.Size.{bounded_page_size, default_page_size}
use walletd_go.Uuid.{Uuid, nil_uuid}

abbrev pub Fetch : Type 0 → Type 0 → Type 0
Fetch W A = W → Uuid → ℕ → Result (List A) × W

pub record Iterator (W : Type 0) (A : Type 0) : Type 0 where
  pub fetch : Fetch W A
  pub key : A → Uuid
  pub limit : ℕ
  pub cursor : Uuid
  pub page : List A
  pub pos : ℕ
  pub done : Bool
  pub err : Option Err
  pub started : Bool

-- newIterator
abbrev pub new_iterator : {W A : Type 0} → Fetch W A → (A → Uuid) → Iterator W A
new_iterator fetch key = record {
  fetch = fetch;
  key = key;
  limit = default_page_size;
  cursor = nil_uuid;
  page = [];
  pos = 0;
  done = false;
  err = none;
  started = false;
}

-- A `map[uuid.UUID]struct{}` as the list of its keys, each once.
unfoldable pub has_key : Uuid → List Uuid → Bool
has_key k [] = false
has_key k (j ∷ ks) = j == k || has_key k ks

unfoldable pub insert_key : Uuid → List Uuid → List Uuid
insert_key k ks = if has_key k ks then ks else k ∷ ks

-- The loop that fills the map `distinct`.
unfoldable pub distinct_keys : List Uuid → List Uuid → List Uuid
distinct_keys [] seen = seen
distinct_keys (k ∷ ks) seen = distinct_keys ks (insert_key k seen)

abbrev pub stalled : Err
stalled = Err.wrap (Err.sentinel Sentinel.pagination_stalled)

module _ {W A : Type 0} where
  -- (it *Iterator[T]) PageSize
  unfoldable pub page_size : ℤ → Iterator W A → Iterator W A
  page_size n it = if it.started then it else record it { limit = bounded_page_size n }

  -- The page becomes the current one, and its last key the cursor.
  unfoldable pub take_page : Iterator W A → Bool → List A → Uuid → Iterator W A
  take_page it done page next = record it { cursor = next; page = page; pos = 1; done = done }

  -- What `Next` does with a page that is not empty.
  unfoldable pub accept : Iterator W A → A → List A → Bool × Iterator W A
  unfolding take_page
  accept it row rows =
      let page : List A = row ∷ rows in
      let next = it.key (last_or row rows) in
      if ltb (length (distinct_keys (map it.key page) [])) it.limit
      then (true, take_page it true page next)
      else if next == it.cursor
      then (false, record it { err = some stalled })
      else (true, take_page it it.done page next)

  -- What `Next` does with the answer of the fetch.
  unfoldable pub receive : Iterator W A → Result (List A) → Bool × Iterator W A
  unfolding accept
  receive it (err e) = (false, record it { err = some e })
  receive it (ok []) = (false, record it { done = true })
  receive it (ok (row ∷ rows)) = accept it row rows

  -- The part of `Next` that fetches.
  unfoldable pub fetch_next : Iterator W A → W → (Bool × Iterator W A) × W
  fetch_next it w =
      let it' = record it { started = true } in
      let (answer, w') = it.fetch w it.cursor it.limit in (receive it' answer, w')

  -- `Next` where no error is recorded.
  unfoldable pub advance : Iterator W A → W → (Bool × Iterator W A) × W
  advance it w =
      if ltb it.pos (length it.page)
      then ((true, record it { pos = it.pos + 1 }), w)
      else if it.done
      then ((false, it), w)
      else fetch_next it w

  -- (it *Iterator[T]) Next
  unfoldable pub next : Iterator W A → W → (Bool × Iterator W A) × W
  unfolding advance fetch_next
  next it w = elim it.err [ some _ ↦ ((false, it), w) | none ↦ advance it w ]

  -- (it *Iterator[T]) Item; `none` is a panic, an index out of range.
  unfoldable pub item : Iterator W A → Option A
  item it = if it.pos == 0 then none else get_elem? it.page (it.pos - 1)
