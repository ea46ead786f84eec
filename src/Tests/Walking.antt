-- ===== src/Tests/Walking.antt =====
-- Listings of two pages and of three rows.
use walletd_go.Base.{
  ℕ, zero, suc, Option, true, false, none, List, [], ◌∷◌, pos, ◌≡◌, refl, arith, ◌==◌,
  if◌then◌else◌,
}
use walletd_go.Errors.Result.{Result, ok}
use walletd_go.Pagination.Size.{IsPageSize}
use walletd_go.Uuid.{Uuid, nil_uuid}
use walletd_go.Pagination.Iterator
use walletd_go.Pagination.Iterator.{Iterator, Fetch, new_iterator, next, item}
use walletd_go.Pagination.PageIterator
use walletd_go.Pagination.PageIterator.{PageIterator, new_page_iterator}
use walletd_go.Pagination.Loops.{returned}
use walletd_go.Pagination.Walks.{collect, collect_pages, all, all_pages}
use walletd_go.Pagination.Listing.{Group, rows, page_after}
use walletd_go.Pagination.Accept.{IsListing}
use walletd_go.Pagination.Stops.{next-stopped}
use walletd_go.Pagination.Cursor.{
  Use, steps, sizes, checks, shows, ends, is_sized, reports, uses, uses_list,
}
use walletd_go.Pagination.Complete.{collect_complete, iterator_refines}
use walletd_go.Pagination.Chain.{Pages, page_rows, next_cursor, IsPaged, ServesPages}
use walletd_go.Pagination.Pages.{collect_pages_complete, page_iterator_refines}
use walletd_go.Pagination.Range.{appending, all-collect}

-- Two transactions, the first with two rows; a row is its transaction and its amount.
abbrev groups : List (Group (Uuid × ℕ))
groups =
    record { id = 7; first = (7, 10); more = (7, 20) ∷ [] }
    ∷ record { id = 5; first = (5, 30); more = [] }
    ∷ []

abbrev serving : Fetch Unit (Uuid × ℕ)
serving w cursor limit = (ok (page_after groups cursor limit), w)

listed : IsListing (λ (r : Uuid × ℕ). r.0) groups
listed = record {
  distinct = ((λ e. absurd (omega arith), tt), (tt, tt));
  not_nil = (λ e. absurd (omega arith), (λ e. absurd (omega arith), tt));
  keyed = ((refl, (refl, tt)), ((refl, tt), tt));
}

collect_complete_example :
    (s : Iterator Unit (Uuid × ℕ) × Unit) × (collect 9
        (Iterator.page_size (pos 1) (new_iterator serving (λ r. r.0)))
        tt
      ≡ returned (rows groups, none) s)
unfolding rows
collect_complete_example =
    collect_complete serving (λ r. r.0) (pos 1) groups 9 tt listed (λ w cursor limit fits. refl)
      (omega arith)

-- Two steps, a change of the page size, a third step, the error, and two steps past the end.
abbrev client_uses : List Use
client_uses = steps ∷ steps ∷ sizes (pos 1) ∷ steps ∷ checks ∷ steps ∷ steps ∷ []

iterator_refines_example :
    uses next item
      (λ (i : Iterator Unit (Uuid × ℕ)). i.err)
      Iterator.page_size
      (sizes (pos 1) ∷ client_uses)
      (new_iterator serving (λ r. r.0))
      tt
    ≡ uses_list (sizes (pos 1) ∷ client_uses) (rows groups)
iterator_refines_example =
    iterator_refines serving (λ r. r.0) groups (sizes (pos 1) ∷ client_uses) tt listed
      (λ w cursor limit fits. refl)

client_uses_lem :
    uses_list {A = ℕ} client_uses (10 ∷ 20 ∷ 30 ∷ [])
    ≡ shows 10 ∷ shows 20 ∷ is_sized ∷ shows 30 ∷ reports none ∷ ends ∷ ends ∷ []
unfolding uses_list
client_uses_lem = refl

abbrev empty_page : PageIterator.Fetch Unit ℕ
empty_page w cursor limit = (ok ([], none), w)

-- Three rows, cut into pages of one, of two, and of more rows; a row is the cursor of what lies behind it.
abbrev cut : ℕ → Pages ℕ
cut zero = []
cut (suc zero) = (nil_uuid, 1 ∷ []) ∷ (1, 2 ∷ []) ∷ (2, 3 ∷ []) ∷ []
cut (suc (suc zero)) = (nil_uuid, 1 ∷ 2 ∷ []) ∷ (2, 3 ∷ []) ∷ []
cut (suc (suc (suc n))) = (nil_uuid, 1 ∷ 2 ∷ 3 ∷ []) ∷ []

-- The page at a cursor; a cursor of no page finds nothing.
abbrev page_at : Pages ℕ → Uuid → Result (List ℕ × Option Uuid)
page_at [] cursor = ok ([], none)
page_at ((c, page) ∷ rest) cursor =
    let later = page_at rest cursor in if c == cursor then ok (page, next_cursor rest) else later

-- A server that cuts by the limit.
abbrev cutting : PageIterator.Fetch Unit ℕ
cutting w cursor limit = (page_at (cut limit) cursor, w)

cut-IsPaged : IsPaged IsPageSize cut (1 ∷ 2 ∷ 3 ∷ [])
unfolding page_rows
cut-IsPaged zero fits = absurd (omega (arith, fits.0))
cut-IsPaged (suc zero) fits = (
  (
    refl,
    refl,
    (λ e. absurd (omega arith), λ e. absurd cc, (λ e. absurd (omega arith), λ e. absurd cc, tt)),
  ),
  refl,
)
cut-IsPaged (suc (suc zero)) fits =
    ((refl, refl, (λ e. absurd (omega arith), λ e. absurd cc, tt)), refl)
cut-IsPaged (suc (suc (suc n))) fits = ((refl, refl, tt), refl)

cutting-ServesPages : ServesPages IsPageSize cutting cut
cutting-ServesPages w zero fits = tt
cutting-ServesPages w (suc zero) fits = (refl, (refl, (refl, tt)))
cutting-ServesPages w (suc (suc zero)) fits = (refl, (refl, tt))
cutting-ServesPages w (suc (suc (suc n))) fits = (refl, tt)

collect_pages_complete_example :
    (s : PageIterator Unit ℕ × Unit) × (collect_pages 9
        (PageIterator.page_size (pos 2) (new_page_iterator cutting))
        tt
      ≡ returned (1 ∷ 2 ∷ 3 ∷ [], none) s)
collect_pages_complete_example =
    collect_pages_complete cutting cut (1 ∷ 2 ∷ 3 ∷ []) (pos 2) 9 tt cut-IsPaged cutting-ServesPages
      (omega arith)

-- The size of the pages is 2 before the walk, and the later change to 1 has no effect.
page_iterator_refines_example :
    uses PageIterator.next PageIterator.item
      (λ (i : PageIterator Unit ℕ). i.err)
      PageIterator.page_size
      (sizes (pos 2) ∷ client_uses)
      (new_page_iterator cutting)
      tt
    ≡ uses_list (sizes (pos 2) ∷ client_uses) (1 ∷ 2 ∷ 3 ∷ [])
page_iterator_refines_example =
    page_iterator_refines cutting cut (1 ∷ 2 ∷ 3 ∷ []) (sizes (pos 2) ∷ client_uses) tt cut-IsPaged
      cutting-ServesPages

abbrev no_rows : Fetch Unit ℕ
no_rows w cursor limit = (ok [], w)

abbrev one_row : Fetch Unit ℕ
one_row w cursor limit = (ok (4 ∷ []), w)

stops : (next (new_iterator no_rows (λ n. n)) tt).0.0 ≡ false
unfolding next Iterator.receive
stops = refl

next-stopped_example :
    next (next (new_iterator no_rows (λ n. n)) tt).0.1 tt
    ≡ ((false, (next (new_iterator no_rows (λ n. n)) tt).0.1), tt)
next-stopped_example = next-stopped (new_iterator no_rows (λ n. n)) tt tt stops

one_row_shows : (next (new_iterator one_row (λ n. n)) tt).0.0 ≡ true
unfolding next Iterator.receive Iterator.distinct_keys Iterator.insert_key Iterator.has_key
one_row_shows = refl

all-collect_example :
    (all 5 0 appending (new_iterator one_row (λ n. n)) tt ([], none)
      ≡ collect 5 (new_iterator one_row (λ n. n)) tt)
    × (all_pages 5 0 appending (new_page_iterator empty_page) tt ([], none)
        ≡ collect_pages 5 (new_page_iterator empty_page) tt)
all-collect_example =
    all-collect 5 0 (new_iterator one_row (λ n. n)) (new_page_iterator empty_page) tt
