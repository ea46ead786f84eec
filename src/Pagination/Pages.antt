-- ===== src/Pagination/Pages.antt =====
-- PageIterator over a server whose answers name the next cursor: it is a cursor in the rows of all pages,
-- and Collect returns them.
use walletd_go.Base.{ℕ, ◌<◌, Option, none, List, [], ◌++◌, ◌≡◌, refl, length, ℤ, inl, arith}
use walletd_go.Errors.Chain.{Err}
use walletd_go.Pagination.Size.{IsPageSize, bounded_page_size-IsPageSize}
use walletd_go.Pagination.PageIterator.{
  PageIterator, Fetch, new_page_iterator, next, item, page_size,
}
use walletd_go.Pagination.Loops.{returned}
use walletd_go.Pagination.Walks.{collect_pages}
use walletd_go.Pagination.Chain.{Pages, IsPaged, ServesPages, MayServePages}
use walletd_go.Pagination.Cursor.{
  Use, uses, uses_list, uses_refine, collect_refines, collect_truncates,
}
use walletd_go.Pagination.Following.MayFail.{Stands-MaySimulate}
use walletd_go.Pagination.Following.{Stands, Stands-Simulates, resized}

module _ {W A : Type 0} (IsAsked : ℕ → Type 0) (fetch : Fetch W A) (pages : ℕ → Pages A)
    (listing : List A) (default : IsAsked 100) where
  new_page_iterator-Stands : Stands IsAsked fetch pages listing (new_page_iterator fetch) listing
  new_page_iterator-Stands = inl (100, default, refl, refl)

-- A PageIterator over a server that cuts a listing into pages by the limit, in every state of the world,
-- implements a cursor in the list of the rows: whatever its client calls on it, Next with Item behind it,
-- PageSize with any argument and Err, in any order and number, every call answers what a cursor in that list
-- answers. For every limit from 1 to 100, which are all that the contract has, the server answers a cursor of
-- the pages of that size with its page and the cursor of the next one, cursors move on and only the last page
-- may be empty; the cursors of another size it need not know.
pub page_iterator_refines :
    {W A : Type 0} (fetch : Fetch W A) (pages : ℕ → Pages A) (listing : List A) (us : List Use)
    (w : W)
    → IsPaged IsPageSize pages listing
    → ServesPages IsPageSize fetch pages
    → uses next item (λ (i : PageIterator W A). i.err) page_size us (new_page_iterator fetch) w
      ≡ uses_list us listing
page_iterator_refines fetch pages listing us w paged serves =
    uses_refine next item _ page_size (Stands IsPageSize fetch pages listing)
      (Stands-Simulates IsPageSize fetch pages listing bounded_page_size-IsPageSize paged serves) us
      (new_page_iterator fetch) w listing
      (new_page_iterator-Stands IsPageSize fetch pages listing (omega arith, omega arith))

-- If a server cuts a listing into pages by the limit, and for every limit from 1 to 100 answers a cursor of
-- the pages of that size with its page and the cursor of the next one, where cursors move on and only the
-- last page may be empty, then Collect on a new PageIterator returns the rows of the listing in order and no
-- error, whatever page size its client asks for, in range or not, with at most one call of Next more than
-- there are rows.
pub collect_pages_complete :
    {W A : Type 0} (fetch : Fetch W A) (pages : ℕ → Pages A) (listing : List A) (n : ℤ) (fuel : ℕ)
    (w : W)
    → IsPaged IsPageSize pages listing
    → ServesPages IsPageSize fetch pages
    → length listing < fuel
    → (s : PageIterator W A × W) × (collect_pages fuel (page_size n (new_page_iterator fetch)) w
        ≡ returned (listing, none) s)
unfolding collect_pages
collect_pages_complete fetch pages listing n fuel w paged serves enough =
    collect_refines next item _ page_size (Stands IsPageSize fetch pages listing)
      (Stands-Simulates IsPageSize fetch pages listing bounded_page_size-IsPageSize paged serves)
      fuel (page_size n (new_page_iterator fetch)) w listing []
      (resized IsPageSize fetch pages listing bounded_page_size-IsPageSize (new_page_iterator fetch)
        n listing
        (new_page_iterator-Stands IsPageSize fetch pages listing (omega arith, omega arith)))
      enough

-- Collect never cuts such a listing short in silence either: over a server that answers every cursor of the
-- pages of the default size with its page and the next cursor, or fails, at any fetch and with any error, a
-- new PageIterator collects the first rows of the pages in order, and all of them if Collect returns no
-- error.
pub collect_pages_truncated :
    {W A : Type 0} (IsAsked : ℕ → Type 0) (fetch : Fetch W A) (pages : ℕ → Pages A)
    (listing : List A) (fuel : ℕ) (w : W)
    → IsAsked 100
    → IsPaged IsAsked pages listing
    → MayServePages IsAsked fetch pages
    → length listing < fuel
    → (collected : List A) × (missing : List A) × (e : Option Err) × (s : PageIterator W A × W)
      × (listing ≡ collected ++ missing)
      × (collect_pages fuel (new_page_iterator fetch) w ≡ returned (collected, e) s)
      × (e ≡ none → missing ≡ [])
unfolding collect_pages
collect_pages_truncated IsAsked fetch pages listing fuel w default paged may enough =
    collect_truncates next item _ page_size (Stands IsAsked fetch pages listing)
      (Stands-MaySimulate IsAsked fetch pages listing paged may) fuel (new_page_iterator fetch) w
      listing [] (new_page_iterator-Stands IsAsked fetch pages listing default) enough
