-- ===== src/Pagination/Stops.antt =====
-- Once an iterator has stopped it stays stopped, and what it shows while it runs is defined.
use walletd_go.Base.{
  ◌-◌, ◌≤◌, ◌<◌, true, false, some, List, [], ◌∷◌, map, ◌≡◌, refl, ◌⊎◌, inl, inr, ltb, ◌==◌, ◌∙◌,
  sym, length, get_elem?-eq_some, last_or, true-ne-false, arith, Bool-cases, Option-cases,
}
use walletd_go.Errors.Chain.{Err}
use walletd_go.Errors.Result.{Result, ok, err}
use walletd_go.Pagination.Iterator.{
  Iterator, receive, accept, advance, next, item, distinct_keys, stalled,
}
use walletd_go.Pagination.Steps.{
  next_fine, next_failed, advance_within, advance_done, advance_fetch, answer,
}

module _ {W A : Type 0} where
  -- The state in which `Next` answers false and fetches nothing.
  abbrev pub HasStopped : Iterator W A → Type 0
  HasStopped it = ((e : Err) × (it.err ≡ some e)) ⊎ ((length it.page ≤ it.pos) × (it.done ≡ true))

  HasStopped-next : (it : Iterator W A) (w : W) → HasStopped it → next it w ≡ ((false, it), w)
  unfolding next
  HasStopped-next it w (inl (e, failed)) = rw failed
  HasStopped-next it w (inr (shown, done)) = elim (Option-cases it.err) [
    | inr (e, failed) ↦ rw failed
    | inl fine ↦ rw fine (ground arith)
  ]

  accept-HasStopped :
      (it : Iterator W A) (row : A) (rows : List A)
      → (accept it row rows).0 ≡ false
      → HasStopped (accept it row rows).1
  unfolding accept
  accept-HasStopped it row rows h =
      elim (Bool-cases (ltb (length (distinct_keys (map it.key (row ∷ rows)) [])) it.limit)) [
        | inl short ↦ absurd (true-ne-false (rw short at h))
        | inr full ↦ elim (Bool-cases (it.key (last_or row rows) == it.cursor)) [
          | inl same ↦ inl (stalled, rw (full, same))
          | inr moved ↦ absurd (true-ne-false (rw (full, moved) at h))
        ]
      ]

  receive-HasStopped :
      (it : Iterator W A) (r : Result (List A))
      → length it.page ≤ it.pos
      → (receive it r).0 ≡ false
      → HasStopped (receive it r).1
  unfolding receive
  receive-HasStopped it (err e) shown h = inl (e, refl)
  receive-HasStopped it (ok []) shown h = inr (shown, refl)
  receive-HasStopped it (ok (row ∷ rows)) shown h = accept-HasStopped it row rows h

  advance-HasStopped :
      (it : Iterator W A) (w : W) → (advance it w).0.0 ≡ false → HasStopped (advance it w).0.1
  advance-HasStopped it w h = elim (Bool-cases (ltb it.pos (length it.page))) [
    | inl more ↦ absurd (true-ne-false (rw (advance_within it w more) at h))
    | inr shown ↦ elim (Bool-cases it.done) [
      | inl d ↦ rw (advance_done it w shown d) (inr (ground arith, d))
      | inr d ↦
          let f = advance_fetch it w shown d in
          rw f (
            receive-HasStopped (record it { started = true }) (answer it w).0 (ground arith)
              (rw f at h))
    ]
  ]

  next-HasStopped :
      (it : Iterator W A) (w : W) → (next it w).0.0 ≡ false → HasStopped (next it w).0.1
  next-HasStopped it w h = elim (Option-cases it.err) [
    | inl fine ↦ rw (next_fine it w fine) (advance-HasStopped it w (rw (next_fine it w fine) at h))
    | inr (e, failed) ↦ rw (next_failed it w failed) (inl (e, failed))
  ]

  -- When `Next` has answered false, every later `Next` answers false too, fetches nothing and leaves
  -- the iterator, its error included, and the world as they are.
  pub next-stopped :
      (it : Iterator W A) (w w' : W)
      → (next it w).0.0 ≡ false
      → next (next it w).0.1 w' ≡ ((false, (next it w).0.1), w')
  next-stopped it w w' h = HasStopped-next (next it w).0.1 w' (next-HasStopped it w h)

  -- The state in which an item is shown.
  abbrev Shows : Iterator W A → Type 0
  Shows it = (0 < it.pos) × (it.pos ≤ length it.page)

  accept-Shows :
      (it : Iterator W A) (row : A) (rows : List A)
      → (accept it row rows).0 ≡ true
      → Shows (accept it row rows).1
  unfolding accept
  accept-Shows it row rows h =
      elim (Bool-cases (ltb (length (distinct_keys (map it.key (row ∷ rows)) [])) it.limit)) [
        | inl short ↦ rw short (omega arith, omega arith)
        | inr full ↦ elim (Bool-cases (it.key (last_or row rows) == it.cursor)) [
          | inl same ↦ absurd (true-ne-false (sym (rw (full, same) at h)))
          | inr moved ↦ rw (full, moved) (omega arith, omega arith)
        ]
      ]

  receive-Shows :
      (it : Iterator W A) (r : Result (List A)) → (receive it r).0 ≡ true → Shows (receive it r).1
  unfolding receive
  receive-Shows it (err e) h = cc
  receive-Shows it (ok []) h = cc
  receive-Shows it (ok (row ∷ rows)) h = accept-Shows it row rows h

  next-Shows : (it : Iterator W A) (w : W) → (next it w).0.0 ≡ true → Shows (next it w).0.1
  next-Shows it w h = elim (Option-cases it.err) [
    | inr (e, failed) ↦ absurd (true-ne-false (sym (rw (next_failed it w failed) at h)))
    | inl fine ↦ elim (Bool-cases (ltb it.pos (length it.page))) [
      | inl more ↦ rw (next_fine it w fine, advance_within it w more) (omega arith, ground arith)
      | inr shown ↦ elim (Bool-cases it.done) [
        | inl d ↦
            absurd (true-ne-false (sym (rw (next_fine it w fine, advance_done it w shown d) at h)))
        | inr d ↦
            let f = next_fine it w fine ∙ advance_fetch it w shown d in
            rw f (receive-Shows (record it { started = true }) (answer it w).0 (rw f at h))
      ]
    ]
  ]

  Shows-item : (it : Iterator W A) → Shows it → (a : A) × (item it ≡ some a)
  unfolding item
  Shows-item it (low, high) =
      let (a, e) = get_elem?-eq_some it.page (it.pos - 1) (omega arith) in (a, ground arith)

  -- When `Next` has answered true, `Item` is an item: no index is out of range, whatever the state
  -- before.
  pub next-item :
      (it : Iterator W A) (w : W)
      → (next it w).0.0 ≡ true
      → (a : A) × (item (next it w).0.1 ≡ some a)
  next-item it w h = Shows-item (next it w).0.1 (next-Shows it w h)
