-- ===== src/Pagination/Steps.antt =====
-- The branches of `Next` of Iterator, as equations.
use walletd_go.Base.{◌+◌, ◌≡◌, true, false, none, some, List, ltb, length}
use walletd_go.Errors.Chain.{Err}
use walletd_go.Pagination.Iterator.{Iterator, receive, fetch_next, advance, next}
use walletd_go.Errors.Result.{Result}

module _ {W A : Type 0} (it : Iterator W A) (w : W) where
  pub next_failed : {e : Err} → it.err ≡ some e → next it w ≡ ((false, it), w)
  unfolding next
  next_failed failed = rw failed

  pub next_fine : it.err ≡ none → next it w ≡ advance it w
  unfolding next
  next_fine fine = rw fine

  pub advance_within :
      ltb it.pos (length it.page) ≡ true
      → advance it w ≡ ((true, record it { pos = it.pos + 1 }), w)
  unfolding advance
  advance_within more = rw more

  pub advance_done :
      ltb it.pos (length it.page) ≡ false → it.done ≡ true → advance it w ≡ ((false, it), w)
  unfolding advance
  advance_done shown done = rw (shown, done)

  -- The answer of the fetch that `Next` makes.
  abbrev pub answer : Result (List A) × W
  answer = it.fetch w it.cursor it.limit

  pub advance_fetch :
      ltb it.pos (length it.page) ≡ false
      → it.done ≡ false
      → advance it w ≡ (receive (record it { started = true }) answer.0, answer.1)
  unfolding advance fetch_next
  advance_fetch shown going = rw (shown, going)
