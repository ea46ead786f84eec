-- ===== src/Pagination/Size.antt =====
-- The page size that an iterator asks for.
use walletd_go.Base.{ℕ, ◌≤◌, ◌<◌, suc, ◌-◌, ℤ, pos, ltb_ℤ, pos_part, min, if◌then◌else◌, ◌≡◌, arith}

abbrev pub default_page_size : ℕ
default_page_size = 100

-- boundedPageSize
unfoldable pub bounded_page_size : ℤ → ℕ
bounded_page_size n =
    if ltb_ℤ n (pos 1) then default_page_size else min (pos_part n) default_page_size

-- The page sizes that the contract allows.
abbrev pub IsPageSize : ℕ → Type 0
IsPageSize limit = (0 < limit) × (limit ≤ 100)

pub bounded_page_size-IsPageSize : (n : ℤ) → IsPageSize (bounded_page_size n)
unfolding bounded_page_size
bounded_page_size-IsPageSize n = (ground arith, ground arith)

-- The page size is never 0.
pub bounded_page_size-positive :
    (n : ℤ) → (m : ℕ) × (bounded_page_size n ≡ suc m) × IsPageSize (suc m)
unfolding bounded_page_size
bounded_page_size-positive n = (bounded_page_size n - 1, ground arith, (omega arith, ground arith))
