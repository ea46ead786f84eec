-- ===== src/Pagination/Walks.antt =====
-- Collect and All of the two iterators.
use walletd_go.Base.{ℕ, List, [], Option}
use walletd_go.Errors.Chain.{Err}
use walletd_go.Pagination.Iterator
use walletd_go.Pagination.Iterator.{Iterator}
use walletd_go.Pagination.PageIterator
use walletd_go.Pagination.PageIterator.{PageIterator}
use walletd_go.Pagination.Loops.{Walk, Yield, collect_loop, all_loop}

module _ {W A : Type 0} (fuel : ℕ) where
  -- (it *Iterator[T]) Collect
  unfoldable pub collect : Iterator W A → W → Walk (Iterator W A × W) (List A × Option Err)
  collect it w = collect_loop Iterator.next Iterator.item (λ (i : Iterator W A). i.err) fuel it w []

  -- (p *PageIterator[T]) Collect
  unfoldable pub collect_pages :
      PageIterator W A → W → Walk (PageIterator W A × W) (List A × Option Err)
  collect_pages it w =
      collect_loop PageIterator.next PageIterator.item (λ (i : PageIterator W A). i.err) fuel it w
        []

module _ {W A B : Type 0} (fuel : ℕ) (zero_item : A) (yield : Yield B A) where
  -- (it *Iterator[T]) All
  unfoldable pub all : Iterator W A → W → B → Walk (Iterator W A × W) B
  all it w b =
      all_loop Iterator.next Iterator.item (λ (i : Iterator W A). i.err) zero_item yield fuel it w b

  -- (p *PageIterator[T]) All
  unfoldable pub all_pages : PageIterator W A → W → B → Walk (PageIterator W A × W) B
  all_pages it w b =
      all_loop PageIterator.next PageIterator.item (λ (i : PageIterator W A). i.err) zero_item yield
        fuel it w b
