-- ===== src/Pagination/Complete.antt =====
-- Iterator over a server that keeps the contract: it is a cursor in the listing, and Collect returns it.
use walletd_go.Base.{ℕ, ◌<◌, Option, none, List, ◌++◌, [], ◌≡◌, length, ℤ, arith}
use walletd_go.Uuid.{Uuid}
use walletd_go.Errors.Chain.{Err}
use walletd_go.Pagination.Iterator.{Iterator, Fetch, new_iterator, next, item, page_size}
use walletd_go.Pagination.Size.{IsPageSize}
use walletd_go.Pagination.Loops.{returned}
use walletd_go.Pagination.Walks.{collect}
use walletd_go.Pagination.Listing.{Group, rows}
use walletd_go.Pagination.Accept.{Serves, MayServe, IsListing}
use walletd_go.Pagination.Cursor.{
  Use, uses, uses_list, uses_refine, collect_refines, collect_truncates,
}
use walletd_go.Pagination.Standing.MayFail.{Stands-MaySimulate}
use walletd_go.Pagination.Standing.{Stands, Stands-Simulates, new_iterator-Stands, resized}

-- An Iterator over a server that keeps the contract of a cursor listing for the limits from 1 to 100, which
-- are all that the contract has, in every state of the world, implements a cursor in the list of the rows:
-- whatever its client calls on it, Next with Item behind it, PageSize with any argument and Err, in any order
-- and number, every call answers what a cursor in that list answers. The listing has distinct keys that are
-- not the nil UUID.
pub iterator_refines :
    {W A : Type 0} (fetch : Fetch W A) (key : A → Uuid) (groups : List (Group A)) (us : List Use)
    (w : W)
    → IsListing key groups
    → Serves fetch groups
    → uses next item (λ (i : Iterator W A). i.err) page_size us (new_iterator fetch key) w
      ≡ uses_list us (rows groups)
iterator_refines fetch key groups us w h serves =
    uses_refine next item _ page_size (Stands fetch key groups h)
      (Stands-Simulates fetch key groups h serves) us (new_iterator fetch key) w (rows groups)
      (new_iterator-Stands fetch key groups h 100 (omega arith, omega arith))

-- Collect never cuts a listing short in silence: over a server that keeps the contract of a cursor
-- listing, or fails, at any fetch and with any error, a new iterator of a page size from 1 to 100 collects
-- the first rows of the listing in order, and all of them if Collect returns no error.
pub collect_truncated :
    {W A : Type 0} (fetch : Fetch W A) (key : A → Uuid) (limit : ℕ) (groups : List (Group A))
    (fuel : ℕ) (w : W)
    → IsPageSize limit
    → IsListing key groups
    → MayServe fetch groups
    → length (rows groups) < fuel
    → (collected : List A) × (missing : List A) × (e : Option Err) × (s : Iterator W A × W) × (rows
          groups
        ≡ collected ++ missing)
      × (collect fuel (record (new_iterator fetch key) { limit = limit }) w
          ≡ returned (collected, e) s)
      × (e ≡ none → missing ≡ [])
unfolding collect
collect_truncated fetch key limit groups fuel w some_limit h may enough =
    collect_truncates next item _ page_size (Stands fetch key groups h)
      (Stands-MaySimulate fetch key groups h may) fuel
      (record (new_iterator fetch key) { limit = limit }) w (rows groups) []
      (new_iterator-Stands fetch key groups h limit some_limit) enough

module _ {W A : Type 0} (fetch : Fetch W A) (key : A → Uuid) (groups : List (Group A)) (fuel : ℕ)
    (w : W) (h : IsListing key groups) (serves : Serves fetch groups)
    (enough : length (rows groups) < fuel) where
  abbrev CollectsAll : Iterator W A → Type 0
  CollectsAll it = (s : Iterator W A × W) × (collect fuel it w ≡ returned (rows groups, none) s)

  Stands-CollectsAll :
      (it : Iterator W A) → Stands fetch key groups h it (rows groups) → CollectsAll it
  unfolding collect
  Stands-CollectsAll it stands =
      collect_refines next item _ page_size (Stands fetch key groups h)
        (Stands-Simulates fetch key groups h serves) fuel it w (rows groups) [] stands enough

  -- A new iterator, at the default page size.
  pub new_iterator-CollectsAll : CollectsAll (new_iterator fetch key)
  new_iterator-CollectsAll =
      Stands-CollectsAll (new_iterator fetch key)
        (new_iterator-Stands fetch key groups h 100 (omega arith, omega arith))

  page_size-CollectsAll : (n : ℤ) → CollectsAll (page_size n (new_iterator fetch key))
  page_size-CollectsAll n = Stands-CollectsAll (page_size n (new_iterator fetch key)) (
      resized fetch key groups h (new_iterator fetch key) n (rows groups)
        (new_iterator-Stands fetch key groups h 100 (omega arith, omega arith)))

-- If a server keeps the contract of a cursor listing for the limits from 1 to 100, which are all that the
-- contract has, in every state of the world, and the listing has distinct keys that are not the nil UUID,
-- then Collect on a new iterator returns every row of the listing in order and no error, whatever page size
-- its client asks for, in range or not, and whatever number of rows a key has: no page is dropped, and no
-- cursor stalls. It needs at most one call of Next more than there are rows.
pub collect_complete :
    {W A : Type 0} (fetch : Fetch W A) (key : A → Uuid) (n : ℤ) (groups : List (Group A)) (fuel : ℕ)
    (w : W)
    → IsListing key groups
    → Serves fetch groups
    → length (rows groups) < fuel
    → (s : Iterator W A × W) × (collect fuel (page_size n (new_iterator fetch key)) w
        ≡ returned (rows groups, none) s)
collect_complete fetch key n groups fuel w h serves enough =
    page_size-CollectsAll fetch key groups fuel w h serves enough n
