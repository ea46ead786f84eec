-- ===== src/Pagination/PageIterator.antt =====
-- PageIterator of pagination.go: the listing whose answers carry `next_cursor`.
use walletd_go.Base.{
  ℕ, ◌+◌, ◌-◌, Bool, true, false, not, ◌&&◌, Option, none, some, List, [], ◌∷◌, ℤ, ltb, ◌==◌,
  if◌then◌else◌, length, get_elem?,
}
use walletd_go.Errors.Chain.{Err}
use walletd_go.Errors.Result.{Result, ok, err}
use walletd_go.Pagination.Size.{bounded_page_size, default_page_size}
use walletd_go.Pagination.Iterator.{stalled}
use walletd_go.Uuid.{Uuid, nil_uuid}

abbrev pub Fetch : Type 0 → Type 0 → Type 0
Fetch W A = W → Uuid → ℕ → Result (List A × Option Uuid) × W

pub record PageIterator (W : Type 0) (A : Type 0) : Type 0 where
  pub fetch : Fetch W A
  pub limit : ℕ
  pub cursor : Uuid
  pub page : List A
  pub pos : ℕ
  pub done : Bool
  pub err : Option Err
  pub started : Bool

-- newPageIterator
abbrev pub new_page_iterator : {W A : Type 0} → Fetch W A → PageIterator W A
new_page_iterator fetch = record {
  fetch = fetch;
  limit = default_page_size;
  cursor = nil_uuid;
  page = [];
  pos = 0;
  done = false;
  err = none;
  started = false;
}

module _ {W A : Type 0} where
  -- (p *PageIterator[T]) PageSize
  unfoldable pub page_size : ℤ → PageIterator W A → PageIterator W A
  page_size n it = if it.started then it else record it { limit = bounded_page_size n }

  -- The end of `Next`: an empty page ends the walk, another one becomes the current page.
  unfoldable pub show_page : List A → PageIterator W A → Bool × PageIterator W A
  show_page [] it = (false, record it { done = true })
  show_page (row ∷ rows) it = (true, record it { page = row ∷ rows; pos = 1 })

  -- The switch of `Next` on the next cursor, and what follows it.
  unfoldable pub follow : PageIterator W A → List A → Option Uuid → Bool × PageIterator W A
  unfolding show_page
  follow it page none = show_page page (record it { done = true })
  follow it page (some next) =
      if next == it.cursor && not (it.cursor == nil_uuid)
      then (false, record it { err = some stalled })
      else show_page page (record it { cursor = next })

  -- What `Next` does with the answer of the fetch.
  unfoldable pub receive :
      PageIterator W A → Result (List A × Option Uuid) → Bool × PageIterator W A
  unfolding follow
  receive it (err e) = (false, record it { err = some e })
  receive it (ok (page, next)) = follow it page next

  -- The part of `Next` that fetches.
  unfoldable pub fetch_next : PageIterator W A → W → (Bool × PageIterator W A) × W
  fetch_next it w =
      let it' = record it { started = true } in
      let (answer, w') = it.fetch w it.cursor it.limit in (receive it' answer, w')

  -- `Next` where no error is recorded.
  unfoldable pub advance : PageIterator W A → W → (Bool × PageIterator W A) × W
  advance it w =
      if ltb it.pos (length it.page)
      then ((true, record it { pos = it.pos + 1 }), w)
      else if it.done
      then ((false, it), w)
      else fetch_next it w

  -- (p *PageIterator[T]) Next
  unfoldable pub next : PageIterator W A → W → (Bool × PageIterator W A) × W
  unfolding advance fetch_next
  next it w = elim it.err [ some _ ↦ ((false, it), w) | none ↦ advance it w ]

  -- (p *PageIterator[T]) Item; `none` is a panic, an index out of range.
  unfoldable pub item : PageIterator W A → Option A
  item it = if it.pos == 0 then none else get_elem? it.page (it.pos - 1)
