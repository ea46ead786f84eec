-- ===== src/Pagination/Range.antt =====
-- Ranging over All and appending every item is Collect.
use walletd_go.Base.{
  ℕ, zero, suc, Bool, true, false, Option, none, some, List, [], ◌∷◌, ◌++◌, ◌≡◌, refl, ℤ, ◌≤◌,
  arith,
}
use walletd_go.Errors.Chain.{Err}
use walletd_go.Pagination.Size.{bounded_page_size, default_page_size}
use walletd_go.Pagination.Iterator
use walletd_go.Pagination.Iterator.{Iterator, new_iterator, Fetch}
use walletd_go.Pagination.PageIterator
use walletd_go.Pagination.PageIterator.{PageIterator}
use walletd_go.Pagination.Loops.{
  Yield, collect_loop, collect_turn, collect_item, all_loop, all_turn, all_item,
}
use walletd_go.Pagination.Walks.{collect, all, collect_pages, all_pages}

-- The body that appends every item, and keeps the error.
abbrev pub appending : {A : Type 0} → Yield (List A × Option Err) A
appending (out, _) a none = ((out ++ a ∷ [], none), true)
appending (out, _) a (some e) = ((out, some e), true)

module _ {I W A : Type 0} (next : I → W → (Bool × I) × W) (item : I → Option A)
    (failure : I → Option Err) (zero_item : A) where
  abbrev Agrees : ℕ → Type 0
  Agrees fuel =
      (it : I) (w : W) (out : List A)
      → all_loop next item failure zero_item appending fuel it w (out, none)
        ≡ collect_loop next item failure fuel it w out

  item-Agrees :
      (fuel : ℕ)
      → Agrees fuel
      → (shown : Option A) (it : I) (w : W) (out : List A)
      → all_item next item failure zero_item appending
          (all_loop next item failure zero_item appending fuel)
          shown
          it
          w
          (out, none)
        ≡ collect_item next item failure (collect_loop next item failure fuel) shown it w out
  unfolding all_item collect_item
  item-Agrees fuel ih none it w out = refl
  item-Agrees fuel ih (some a) it w out = ih it w (out ++ a ∷ [])

  turn-Agrees :
      (fuel : ℕ)
      → Agrees fuel
      → (more : Bool) (it : I) (w : W) (out : List A) (e : Option Err) → failure it ≡ e
      → all_turn next item failure zero_item appending
          (all_loop next item failure zero_item appending fuel)
          ((more, it), w)
          (out, none)
        ≡ collect_turn next item failure (collect_loop next item failure fuel) ((more, it), w) out
  unfolding all_turn collect_turn
  turn-Agrees fuel ih true it w out e h = item-Agrees fuel ih (item it) it w out
  turn-Agrees fuel ih false it w out none h = rw h
  turn-Agrees fuel ih false it w out (some e) h = rw h

  loop-Agrees : (fuel : ℕ) → Agrees fuel
  unfolding all_loop collect_loop
  loop-Agrees zero it w out = refl
  loop-Agrees (suc fuel) it w out =
      let r = next it w in
      turn-Agrees fuel (loop-Agrees fuel) r.0.0 r.0.1 r.1 out (failure r.0.1) refl

-- For both kinds of iterator, in every state: a range loop over All whose body appends the items and
-- keeps the error ends with the slice and the error that Collect returns, and in the same state.
pub all-collect :
    {W A : Type 0} (fuel : ℕ) (zero_item : A) (it : Iterator W A) (pages : PageIterator W A) (w : W)
    → (all fuel zero_item appending it w ([], none) ≡ collect fuel it w)
      × (all_pages fuel zero_item appending pages w ([], none) ≡ collect_pages fuel pages w)
unfolding all collect all_pages collect_pages
all-collect fuel zero_item it pages w = (
  loop-Agrees Iterator.next Iterator.item _ zero_item fuel it w [],
  loop-Agrees PageIterator.next PageIterator.item _ zero_item fuel pages w [],
)

-- The page size is 1 to 100 for every argument, so that of an iterator stays in that range, and once
-- the walk has started it no longer changes.
pub page_size_bounds :
    {W A : Type 0} (n : ℤ) (it : Iterator W A) (pages : PageIterator W A)
    → ((1 ≤ bounded_page_size n) × (bounded_page_size n ≤ default_page_size))
      × (it.started ≡ true → Iterator.page_size n it ≡ it)
      × (it.started ≡ false → (Iterator.page_size n it).limit ≡ bounded_page_size n)
      × (pages.started ≡ true → PageIterator.page_size n pages ≡ pages)
      × (pages.started ≡ false → (PageIterator.page_size n pages).limit ≡ bounded_page_size n)
unfolding bounded_page_size Iterator.page_size PageIterator.page_size
page_size_bounds n it pages = (ground arith, λ s. rw s, λ s. rw s, λ s. rw s, λ s. rw s)
