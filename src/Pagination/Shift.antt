-- ===== src/Pagination/Shift.antt =====
-- One row moved from what is left of a page to what is collected.
use native.Mathlib.Numerals.{add-one}
use walletd_go.Base.{
  ℕ, ◌+◌, some, List, [], ◌∷◌, ◌++◌, append_assoc, ◌≡◌, drop, get_elem?, drop-get_elem?, drop_all,
  false, ltb, length, refl, sym, arith,
}

pub append_shift {ℓ} :
    {A : Type ℓ} (out : List A) (a : A) (xs ys rest : List A)
    → ys ≡ a ∷ xs
    → (out ++ a ∷ []) ++ (xs ++ rest) ≡ out ++ (ys ++ rest)
append_shift out a xs ys rest e = rw (e, append_assoc)

pub drop-cons {ℓ} :
    {A : Type ℓ} (xs : List A) (n : ℕ) {a : A}
    → get_elem? xs n ≡ some a
    → drop n xs ≡ a ∷ drop (n + 1) xs
drop-cons xs n e = rw add-one (drop-get_elem? n xs e)

-- Nothing is left of a page that is used up.
pub nothing_left {ℓ} :
    {A : Type ℓ} (page : List A) (pos : ℕ)
    → ltb pos (length page) ≡ false
    → [] ≡ drop pos page ++ []
nothing_left page pos used = sym (rw (drop_all pos page (ground arith)) refl)
