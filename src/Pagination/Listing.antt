-- ===== src/Pagination/Listing.antt =====
-- The listing that a server pages through, and what the contract says of a page: the rows of the next
-- `limit` keys after the cursor. A key can have several rows, which stand together.
use walletd_go.Base.{
  ℕ, List, [], ◌∷◌, ◌++◌, append_assoc, ◌≡◌, refl, ◌≢◌, ◌==◌, if◌then◌else◌, take, All,
  All-append_left, All-last_or, last_or-append, last_or, arith,
}
use walletd_go.Uuid.{Uuid, nil_uuid}

-- The rows of one key: there is at least one.
pub record Group (A : Type 0) : Type 0 where
  pub id : Uuid
  pub first : A
  pub more : List A

module _ {A : Type 0} where
  abbrev pub rows_of : Group A → List A
  rows_of g = g.first ∷ g.more

  -- All rows of a listing, in order.
  unfoldable pub rows : List (Group A) → List A
  rows [] = []
  rows (g ∷ gs) = rows_of g ++ rows gs

  -- What lies behind the group with a key.
  unfoldable pub behind : Uuid → List (Group A) → List (Group A)
  behind k [] = []
  behind k (g ∷ gs) = if g.id == k then gs else behind k gs

  -- What lies behind a cursor: everything, for no cursor.
  unfoldable pub after : Uuid → List (Group A) → List (Group A)
  unfolding behind
  after cursor gs = if cursor == nil_uuid then gs else behind cursor gs

  -- The page that the contract promises.
  unfoldable pub page_after : List (Group A) → Uuid → ℕ → List A
  page_after gs cursor limit = rows (take limit (after cursor gs))

  abbrev pub Differs : Uuid → List (Group A) → Type 0
  Differs k = All (λ (g : Group A). g.id ≢ k)

  -- No two groups have one key.
  abbrev pub HasDistinctKeys : List (Group A) → Type 0
  HasDistinctKeys [] = Unit
  HasDistinctKeys (g ∷ gs) = Differs g.id gs × HasDistinctKeys gs

  -- The rows of a group carry its key.
  abbrev pub IsKeyed : (A → Uuid) → List (Group A) → Type 0
  IsKeyed key = All (λ (g : Group A). All (λ (a : A). key a ≡ g.id) (rows_of g))

  -- The key of the last group, and no cursor for no group.
  abbrev pub last_id : Uuid → List (Group A) → Uuid
  last_id k [] = k
  last_id k (g ∷ gs) = last_id g.id gs

  pub rows-append : (gs hs : List (Group A)) → rows (gs ++ hs) ≡ rows gs ++ rows hs
  unfolding rows
  rows-append [] hs = refl
  rows-append (g ∷ gs) hs = simp (rows-append gs hs, append_assoc)

  -- A key that all groups differ from is not the last one.
  last_id-ne : (k j : Uuid) (gs : List (Group A)) → k ≢ j → Differs j gs → last_id k gs ≢ j
  last_id-ne k j [] h d = h
  last_id-ne k j (g ∷ gs) h d = last_id-ne g.id j gs d.0 d.1

  behind-last_id :
      (g : Group A) (served rest : List (Group A))
      → HasDistinctKeys (g ∷ served ++ rest)
      → behind (last_id g.id served) (g ∷ served ++ rest) ≡ rest
  unfolding behind
  behind-last_id g [] rest h = ground arith
  behind-last_id g (s ∷ served) rest h =
      let later : last_id s.id served ≢ g.id =
        last_id-ne s.id g.id served h.0.0 (All-append_left _ served rest h.0.1) in
      ground (arith, behind-last_id s served rest h.1)

  -- Behind the last key of what was served lies the rest.
  pub after-last_id :
      (served rest : List (Group A))
      → HasDistinctKeys (served ++ rest)
      → Differs nil_uuid (served ++ rest)
      → after (last_id nil_uuid served) (served ++ rest) ≡ rest
  unfolding after
  after-last_id [] rest h d = refl
  after-last_id (g ∷ served) rest h d =
      let later : last_id g.id served ≢ nil_uuid =
        last_id-ne g.id nil_uuid served d.0 (All-append_left _ served rest d.1) in
      ground (arith, behind-last_id g served rest h)

  -- The last row of some groups has the last key.
  pub key-last_or-rows :
      (key : A → Uuid) (d : A) {k : Uuid} (gs : List (Group A))
      → key d ≡ k
      → IsKeyed key gs
      → key (last_or d (rows gs)) ≡ last_id k gs
  unfolding rows
  key-last_or-rows key d [] e h = e
  key-last_or-rows key d (g ∷ gs) e h = rw (last_or-append g.first g.more (rows gs)) (
      key-last_or-rows key (last_or g.first g.more) gs
        (All-last_or (λ (a : A). key a ≡ g.id) g.first g.more h.0.0 h.0.1) h.1)

  pub last_id-append :
      (k : Uuid) (gs hs : List (Group A)) → last_id k (gs ++ hs) ≡ last_id (last_id k gs) hs
  last_id-append k [] hs = refl
  last_id-append k (g ∷ gs) hs = last_id-append g.id gs hs

  -- The groups that are left differ from the last key that was served.
  Differs-last_id :
      (k : Uuid) (served rest : List (Group A))
      → Differs k (served ++ rest)
      → HasDistinctKeys (served ++ rest)
      → Differs (last_id k served) rest
  Differs-last_id k [] rest d h = d
  Differs-last_id k (s ∷ served) rest d h = Differs-last_id s.id served rest h.0 h.1

  HasDistinctKeys-append_left :
      (gs hs : List (Group A)) → HasDistinctKeys (gs ++ hs) → HasDistinctKeys gs
  HasDistinctKeys-append_left [] hs h = tt
  HasDistinctKeys-append_left (g ∷ gs) hs h =
      (All-append_left _ gs hs h.0, HasDistinctKeys-append_left gs hs h.1)

  HasDistinctKeys-append_right :
      (gs hs : List (Group A)) → HasDistinctKeys (gs ++ hs) → HasDistinctKeys hs
  HasDistinctKeys-append_right [] hs h = h
  HasDistinctKeys-append_right (g ∷ gs) hs h = HasDistinctKeys-append_right gs hs h.1

  -- A page that is not empty moves the cursor.
  pub last_id-moves :
      (k : Uuid) (served : List (Group A)) (g : Group A) (taken left : List (Group A))
      → Differs k (served ++ (g ∷ (taken ++ left)))
      → HasDistinctKeys (served ++ (g ∷ (taken ++ left)))
      → last_id g.id taken ≢ last_id k served
  last_id-moves k served g taken left d h =
      let apart = Differs-last_id k served (g ∷ (taken ++ left)) d h in
      last_id-ne g.id (last_id k served) taken apart.0 (All-append_left _ taken left apart.1)

  -- The groups of a page have distinct keys.
  pub HasDistinctKeys-middle :
      (served taken left : List (Group A))
      → HasDistinctKeys (served ++ (taken ++ left))
      → HasDistinctKeys taken
  HasDistinctKeys-middle served taken left h =
      HasDistinctKeys-append_left taken left (HasDistinctKeys-append_right served (taken ++ left) h)
