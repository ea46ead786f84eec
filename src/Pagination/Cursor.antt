-- ===== src/Pagination/Cursor.antt =====
-- What an iterator promises its client: it is a cursor in the list of the rows. A client calls Next, and
-- Item where Next was true, and PageSize and Err in any order.
use walletd_go.Base.{
  ℕ, zero, suc, ◌<◌, Bool, true, false, Option, none, some, List, [], ◌∷◌, ◌++◌, append_assoc,
  append-nil, ◌≡◌, ◌⊎◌, inl, inr, refl, sym, ap, ◌∙◌, ℤ, length, arith,
}
use walletd_go.Errors.Chain.{Err}
use walletd_go.Pagination.Loops.{Walk, returned, collect_loop, collect_loop_more, collect_loop_end}

-- One use of an iterator: Next with Item behind it, PageSize, or Err.
pub data Use : Type 0 where
  steps : Use
  sizes : ℤ → Use
  checks : Use

-- What a use answers: the item, the end, an index out of range in Item, nothing, or the error.
pub data Answer (A : Type 0) : Type 0 where
  shows : A → Answer A
  ends : Answer A
  breaks : Answer A
  is_sized : Answer A
  reports : Option Err → Answer A

-- What the uses of a cursor in a list answer: each step shows the next row, the end stays the end, and
-- there is no error.
unfoldable pub uses_list : {A : Type 0} → List Use → List A → List (Answer A)
uses_list [] left = []
uses_list (steps ∷ us) [] = ends ∷ uses_list us []
uses_list (steps ∷ us) (a ∷ left) = shows a ∷ uses_list us left
uses_list (sizes n ∷ us) left = is_sized ∷ uses_list us left
uses_list (checks ∷ us) left = reports none ∷ uses_list us left

module _ {I W A : Type 0} (next : I → W → (Bool × I) × W) (item : I → Option A)
    (failure : I → Option Err) (page_size : ℤ → I → I) where
  shown : Option A → Answer A
  shown none = breaks
  shown (some a) = shows a

  -- Item is called where Next answered true.
  stepped : Bool × I → Answer A
  unfolding shown
  stepped (false, it) = ends
  stepped (true, it) = shown (item it)

  -- What the uses of an iterator answer.
  unfoldable pub uses : List Use → I → W → List (Answer A)
  unfolding stepped
  uses [] it w = []
  uses (steps ∷ us) it w = stepped (next it w).0 ∷ uses us (next it w).0.1 (next it w).1
  uses (sizes n ∷ us) it w = is_sized ∷ uses us (page_size n it) w
  uses (checks ∷ us) it w = reports (failure it) ∷ uses us it w

  -- The iterator stands before these rows, by a relation, and so does what Next makes of it.
  abbrev pub Moves : (I → List A → Type 0) → (Bool × I) × W → List A → Type 0
  Moves Stands res [] = (it : I) × (w : W) × (res ≡ ((false, it), w)) × Stands it []
  Moves Stands res (a ∷ left) =
      (it : I) × (w : W) × (res ≡ ((true, it), w)) × (item it ≡ some a) × Stands it left

  -- A relation that makes the iterator a cursor in a list.
  pub record Simulates (Stands : I → List A → Type 0) : Type 0 where
    pub moves : (it : I) (w : W) (left : List A) → Stands it left → Moves Stands (next it w) left
    pub resized : (it : I) (n : ℤ) (left : List A) → Stands it left → Stands (page_size n it) left
    pub fine : (it : I) (left : List A) → Stands it left → failure it ≡ none

  module _ (Stands : I → List A → Type 0) (simulates : Simulates Stands) where
    -- Every use answers as the cursor in the list does.
    pub uses_refine :
        (us : List Use) (it : I) (w : W) (left : List A)
        → Stands it left
        → uses us it w ≡ uses_list us left
    unfolding uses uses_list
    uses_refine [] it w left stands = refl
    uses_refine (steps ∷ us) it w [] stands =
        let (it', w', e, stands') = simulates.moves it w [] stands in
        rw e (ap (λ l. ends ∷ l) (uses_refine us it' w' [] stands'))
    uses_refine (steps ∷ us) it w (a ∷ left) stands =
        let (it', w', e, shows_a, stands') = simulates.moves it w (a ∷ left) stands in
        rw (e, shows_a) (ap (λ l. shows a ∷ l) (uses_refine us it' w' left stands'))
    uses_refine (sizes n ∷ us) it w left stands =
        ap (λ l. is_sized ∷ l)
          (uses_refine us (page_size n it) w left (simulates.resized it n left stands))
    uses_refine (checks ∷ us) it w left stands =
        rw (simulates.fine it left stands)
          (ap (λ l. reports none ∷ l) (uses_refine us it w left stands))

    -- Collect returns the rows that the iterator stands before, with no error.
    pub collect_refines :
        (fuel : ℕ) (it : I) (w : W) (left out : List A)
        → Stands it left
        → length left < fuel
        → (s : I × W) × (collect_loop next item failure fuel it w out
            ≡ returned (out ++ left, none) s)
    collect_refines zero it w left out stands enough = absurd (omega arith)
    collect_refines (suc fuel) it w [] out stands enough =
        let (it', w', e, stands') = simulates.moves it w [] stands in
        (
          (it', w'),
          collect_loop_end next item failure fuel it it' w w' out e
              ∙ ap (λ x. returned (out, x) (it', w')) (simulates.fine it' [] stands')
              ∙ ap (λ l. returned (l, none) (it', w')) (sym (append-nil out)),
        )
    collect_refines (suc fuel) it w (a ∷ left) out stands enough =
        let (it', w', e, shows_a, stands') = simulates.moves it w (a ∷ left) stands in
        let (s, rest) = collect_refines fuel it' w' left (out ++ a ∷ []) stands' (omega arith) in
        (
          s,
          collect_loop_more next item failure fuel it it' w w' out e shows_a
              ∙ rest
              ∙ ap (λ l. returned (l, none) s) (append_assoc out (a ∷ []) left),
        )

  -- Next stops with an error.
  abbrev pub Fails : (Bool × I) × W → Type 0
  Fails res = (it : I) × (w : W) × (e : Err) × (res ≡ ((false, it), w)) × (failure it ≡ some e)

  -- The same over a server that may fail: Next moves the iterator, or stops with an error.
  pub record MaySimulate (Stands : I → List A → Type 0) : Type 0 where
    pub moves :
        (it : I) (w : W) (left : List A)
        → Stands it left
        → Moves Stands (next it w) left ⊎ Fails (next it w)
    pub fine : (it : I) (left : List A) → Stands it left → failure it ≡ none

  -- What is collected of some rows: the first of them, and all of them if there is no error.
  abbrev pub CollectsFrom : List A → List A → Walk (I × W) (List A × Option Err) → Type 0
  CollectsFrom left out walk =
      (collected : List A) × (missing : List A) × (e : Option Err) × (s : I × W) × (left
        ≡ collected ++ missing)
      × (walk ≡ returned (out ++ collected, e) s)
      × (e ≡ none → missing ≡ [])

  module _ (Stands : I → List A → Type 0) (simulates : MaySimulate Stands) where
    -- A stop: at the end, or with an error.
    collect_stop :
        (fuel : ℕ) (it it' : I) (w w' : W) (left out : List A) (e : Option Err)
        → next it w ≡ ((false, it'), w')
        → failure it' ≡ e
        → (e ≡ none → left ≡ [])
        → CollectsFrom left out (collect_loop next item failure (suc fuel) it w out)
    collect_stop fuel it it' w w' left out e stops failed whole = (
      [],
      left,
      e,
      (it', w'),
      refl,
      collect_loop_end next item failure fuel it it' w w' out stops
          ∙ ap (λ x. returned (out, x) (it', w')) failed
          ∙ ap (λ l. returned (l, e) (it', w')) (sym (append-nil out)),
      whole,
    )

    collect_more :
        (fuel : ℕ) (it it' : I) (w w' : W) (a : A) (left out : List A)
        → next it w ≡ ((true, it'), w')
        → item it' ≡ some a
        → CollectsFrom left
            (out ++ a ∷ [])
            (collect_loop next item failure fuel it' w' (out ++ a ∷ []))
        → CollectsFrom (a ∷ left) out (collect_loop next item failure (suc fuel) it w out)
    collect_more fuel it it' w w' a left out goes shows_a
          (collected, missing, e, s, split, walked, whole) =
        (
          a ∷ collected,
          missing,
          e,
          s,
          ap (λ l. a ∷ l) split,
          collect_loop_more next item failure fuel it it' w w' out goes shows_a
              ∙ walked
              ∙ ap (λ l. returned (l, e) s) (append_assoc out (a ∷ []) collected),
          whole,
        )

    -- Collect returns the first rows that the iterator stands before: all of them, or with an error.
    pub collect_truncates :
        (fuel : ℕ) (it : I) (w : W) (left out : List A)
        → Stands it left
        → length left < fuel
        → CollectsFrom left out (collect_loop next item failure fuel it w out)
    collect_truncates zero it w left out stands enough = absurd (omega arith)
    collect_truncates (suc fuel) it w [] out stands enough = elim (simulates.moves it w [] stands) [
      | inl (it', w', e, stands') ↦
          collect_stop fuel it it' w w' [] out none e (simulates.fine it' [] stands') λ x. refl
      | inr (it', w', x, e, failed) ↦
          collect_stop fuel it it' w w' [] out (some x) e failed λ y. refl
    ]
    collect_truncates (suc fuel) it w (a ∷ left) out stands enough =
        elim (simulates.moves it w (a ∷ left) stands) [
          | inl (it', w', e, shows_a, stands') ↦
              collect_more fuel it it' w w' a left out e shows_a
                (collect_truncates fuel it' w' left (out ++ a ∷ []) stands' (omega arith))
          | inr (it', w', x, e, failed) ↦
              collect_stop fuel it it' w w' (a ∷ left) out (some x) e failed λ y. absurd cc
        ]
