-- ===== src/Base/Lists.antt =====
-- Lists measured by native numbers, and predicates over them by recursion.
use Prim.Native.Nat.{ℕ, zero, suc, ◌+◌, ◌<◌, ◌≤◌}
use mathlib.Core.Path.{◌≡◌, refl, ap}
use mathlib.Core.List.{List, [], ◌∷◌, ◌++◌}
use mathlib.Core.Option.{Option, none, some}
use native.Mathlib.Omega.{arith}

module _ {ℓ} {A : Type ℓ} where
  abbrev pub length : List A → ℕ
  length [] = 0
  length (x ∷ xs) = suc (length xs)

  abbrev pub get_elem? : List A → ℕ → Option A
  get_elem? [] i = none
  get_elem? (x ∷ xs) zero = some x
  get_elem? (x ∷ xs) (suc i) = get_elem? xs i

  abbrev pub take : ℕ → List A → List A
  take zero xs = []
  take (suc n) [] = []
  take (suc n) (x ∷ xs) = x ∷ take n xs

  abbrev pub drop : ℕ → List A → List A
  drop zero xs = xs
  drop (suc n) [] = []
  drop (suc n) (x ∷ xs) = drop n xs

  pub length-append : (xs ys : List A) → length (xs ++ ys) ≡ length xs + length ys
  length-append [] ys = omega arith
  length-append (x ∷ xs) ys = omega (arith, length-append xs ys)

  pub get_elem?-eq_some :
      (xs : List A) (i : ℕ) → i < length xs → (a : A) × (get_elem? xs i ≡ some a)
  get_elem?-eq_some [] i h = elim h [ ]
  get_elem?-eq_some (x ∷ xs) zero h = (x, refl)
  get_elem?-eq_some (x ∷ xs) (suc i) h = get_elem?-eq_some xs i (omega arith)

  pub take-append-drop : (n : ℕ) (xs : List A) → take n xs ++ drop n xs ≡ xs
  take-append-drop zero xs = refl
  take-append-drop (suc n) [] = refl
  take-append-drop (suc n) (x ∷ xs) = ap (λ t. x ∷ t) (take-append-drop n xs)

  -- A prefix that is shorter than asked for is the whole list.
  pub drop-eq_nil : (n : ℕ) (xs : List A) → length (take n xs) < n → drop n xs ≡ []
  drop-eq_nil zero xs h = elim h [ ]
  drop-eq_nil (suc n) [] h = refl
  drop-eq_nil (suc n) (x ∷ xs) h = drop-eq_nil n xs (omega arith)

  pub drop_all : (n : ℕ) (xs : List A) → length xs ≤ n → drop n xs ≡ []
  drop_all zero [] h = refl
  drop_all zero (x ∷ xs) h = elim h [ ]
  drop_all (suc n) [] h = refl
  drop_all (suc n) (x ∷ xs) h = drop_all n xs (omega arith)

  -- An element splits the rest from its position.
  pub drop-get_elem? :
      (n : ℕ) (xs : List A) {a : A} → get_elem? xs n ≡ some a → drop n xs ≡ a ∷ drop (suc n) xs
  drop-get_elem? n [] e = cc
  drop-get_elem? zero (x ∷ xs) e = cc
  drop-get_elem? (suc n) (x ∷ xs) e = drop-get_elem? n xs e

  -- The last element, with a default for the empty list.
  abbrev pub last_or : A → List A → A
  last_or d [] = d
  last_or d (x ∷ xs) = last_or x xs

  pub last_or-append : (d : A) (xs ys : List A) → last_or d (xs ++ ys) ≡ last_or (last_or d xs) ys
  last_or-append d [] ys = refl
  last_or-append d (x ∷ xs) ys = last_or-append x xs ys

module _ {ℓ κ} {A : Type ℓ} (P : A → Type κ) where
  abbrev pub All : List A → Type κ
  All [] = Unit
  All (x ∷ xs) = P x × All xs

  pub All-append : (xs ys : List A) → All xs → All ys → All (xs ++ ys)
  All-append [] ys hx hy = hy
  All-append (x ∷ xs) ys hx hy = (hx.0, All-append xs ys hx.1 hy)

  pub All-append_left : (xs ys : List A) → All (xs ++ ys) → All xs
  All-append_left [] ys h = tt
  All-append_left (x ∷ xs) ys h = (h.0, All-append_left xs ys h.1)

  pub All-append_right : (xs ys : List A) → All (xs ++ ys) → All ys
  All-append_right [] ys h = h
  All-append_right (x ∷ xs) ys h = All-append_right xs ys h.1

  pub All-last_or : (d : A) (xs : List A) → P d → All xs → P (last_or d xs)
  All-last_or d [] p h = p
  All-last_or d (x ∷ xs) p h = All-last_or x xs h.0 h.1

  pub All-take : (n : ℕ) (xs : List A) → All xs → All (take n xs)
  All-take zero xs h = tt
  All-take (suc n) [] h = tt
  All-take (suc n) (x ∷ xs) h = (h.0, All-take n xs h.1)

  pub All-middle : (xs ys zs : List A) → All (xs ++ (ys ++ zs)) → All ys
  All-middle xs ys zs h = All-append_left ys zs (All-append_right xs (ys ++ zs) h)
