-- ===== src/Pagination/Loops.antt =====
-- Collect and All of pagination.go: the loops over `Next`. Both kinds of iterator have the same two
-- loops, so they are written over what the loops use: `next`, `item` and the recorded error. The
-- fuel bounds the calls of `Next`.
use walletd_go.Base.{ℕ, zero, suc, Bool, true, false, Option, none, some, List, [], ◌∷◌, ◌++◌, ◌≡◌}
use walletd_go.Errors.Chain.{Err}

-- How a loop ends: it returns, an index is out of range, or the fuel is spent.
pub data Walk (S : Type 0) (R : Type 0) : Type 0 where
  returned : R → S → Walk S R
  panic : Walk S R
  out_of_fuel : Walk S R

module _ {I W A : Type 0} (next : I → W → (Bool × I) × W) (item : I → Option A)
    (failure : I → Option Err) where
  abbrev pub Collected : Type 0
  Collected = Walk (I × W) (List A × Option Err)

  -- `out = append(out, it.Item())`, and on with the loop.
  unfoldable pub collect_item : (I → W → List A → Collected) → Option A → I → W → List A → Collected
  collect_item rest none it w out = panic
  collect_item rest (some a) it w out = rest it w (out ++ a ∷ [])

  -- The loop's test of what `Next` answered.
  unfoldable pub collect_turn : (I → W → List A → Collected) → (Bool × I) × W → List A → Collected
  collect_turn rest ((false, it), w) out = returned (out, failure it) (it, w)
  collect_turn rest ((true, it), w) out = collect_item rest (item it) it w out

  -- Collect
  unfoldable pub collect_loop : ℕ → I → W → List A → Collected
  unfolding collect_turn collect_item
  collect_loop zero it w out = out_of_fuel
  collect_loop (suc fuel) it w out = collect_turn (collect_loop fuel) (next it w) out

  -- One round of the loop, by what `next` answers.
  pub collect_loop_more :
      (fuel : ℕ) (it it' : I) (w w' : W) (out : List A) {a : A}
      → next it w ≡ ((true, it'), w')
      → item it' ≡ some a
      → collect_loop (suc fuel) it w out ≡ collect_loop fuel it' w' (out ++ a ∷ [])
  unfolding collect_loop
  collect_loop_more fuel it it' w w' out e shown = rw (e, shown)

  pub collect_loop_end :
      (fuel : ℕ) (it it' : I) (w w' : W) (out : List A)
      → next it w ≡ ((false, it'), w')
      → collect_loop (suc fuel) it w out ≡ returned (out, failure it') (it', w')
  unfolding collect_loop
  collect_loop_end fuel it it' w w' out e = rw e

-- The body of a `range` loop over All, with its own state: it takes an item and an error, and says
-- whether to go on.
abbrev pub Yield : Type 0 → Type 0 → Type 0
Yield B A = B → A → Option Err → B × Bool

module _ {I W A B : Type 0} (next : I → W → (Bool × I) × W) (item : I → Option A)
    (failure : I → Option Err) (zero_item : A) (yield : Yield B A) where
  abbrev pub Ranged : Type 0
  Ranged = Walk (I × W) B

  -- All, after the last item: the error is yielded with the zero item.
  unfoldable pub finish : Option Err → B → B
  finish none b = b
  finish (some e) b = (yield b zero_item (some e)).0

  -- `if !yield(…) { return }`
  unfoldable pub all_yield : (I → W → B → Ranged) → B × Bool → I → W → Ranged
  all_yield rest (b, true) it w = rest it w b
  all_yield rest (b, false) it w = returned b (it, w)

  unfoldable pub all_item : (I → W → B → Ranged) → Option A → I → W → B → Ranged
  unfolding all_yield
  all_item rest none it w b = panic
  all_item rest (some a) it w b = all_yield rest (yield b a none) it w

  unfoldable pub all_turn : (I → W → B → Ranged) → (Bool × I) × W → B → Ranged
  unfolding all_item finish
  all_turn rest ((false, it), w) b = returned (finish (failure it) b) (it, w)
  all_turn rest ((true, it), w) b = all_item rest (item it) it w b

  -- All
  unfoldable pub all_loop : ℕ → I → W → B → Ranged
  unfolding all_turn
  all_loop zero it w b = out_of_fuel
  all_loop (suc fuel) it w b = all_turn (all_loop fuel) (next it w) b
