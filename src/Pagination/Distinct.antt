-- ===== src/Pagination/Distinct.antt =====
-- The map of keys that `Next` fills counts the groups of a page, however many rows each has.
use mathlib.Core.List.{map-append}
use walletd_go.Base.{
  ◌+◌, true, false, List, [], ◌∷◌, ◌++◌, map, ◌≡◌, refl, ap, ◌∙◌, length, All, arith,
}
use walletd_go.Uuid.{Uuid}
use walletd_go.Pagination.Iterator.{has_key, insert_key, distinct_keys}
use walletd_go.Pagination.Listing.{Group, rows_of, rows, HasDistinctKeys, Differs, IsKeyed}

module _ {A : Type 0} (key : A → Uuid) where
  -- Rows of a key that was seen change nothing.
  distinct_keys-seen :
      (k : Uuid) (xs : List A) (ks seen : List Uuid)
      → has_key k seen ≡ true
      → All (λ (a : A). key a ≡ k) xs
      → distinct_keys (map key xs ++ ks) seen ≡ distinct_keys ks seen
  unfolding distinct_keys insert_key
  distinct_keys-seen k [] ks seen h e = refl
  distinct_keys-seen k (a ∷ xs) ks seen h e = rw (e.0, h) (distinct_keys-seen k xs ks seen h e.1)

  has_key_self : (k : Uuid) (seen : List Uuid) → has_key k (k ∷ seen) ≡ true
  unfolding has_key
  has_key_self k seen = ground arith

  distinct_keys-group :
      (g : Group A) (ks seen : List Uuid)
      → has_key g.id seen ≡ false
      → All (λ (a : A). key a ≡ g.id) (rows_of g)
      → distinct_keys (map key (rows_of g) ++ ks) seen ≡ distinct_keys ks (g.id ∷ seen)
  distinct_keys-group g ks seen h e =
      step ∙ distinct_keys-seen g.id g.more ks (g.id ∷ seen) (has_key_self g.id seen) e.1
    where
      step :
          distinct_keys (map key (rows_of g) ++ ks) seen
          ≡ distinct_keys (map key g.more ++ ks) (g.id ∷ seen)
      step = unfold distinct_keys insert_key in rw (e.0, h)

  abbrev IsNew : List Uuid → List (Group A) → Type 0
  IsNew seen = All (λ (g : Group A). has_key g.id seen ≡ false)

  IsNew-cons :
      (k : Uuid) (seen : List Uuid) (gs : List (Group A))
      → Differs k gs
      → IsNew seen gs
      → IsNew (k ∷ seen) gs
  unfolding has_key
  IsNew-cons k seen [] d h = tt
  IsNew-cons k seen (g ∷ gs) d h = (ground arith, IsNew-cons k seen gs d.1 h.1)

  length-distinct_keys-from :
      (gs : List (Group A)) (seen : List Uuid)
      → HasDistinctKeys gs
      → IsKeyed key gs
      → IsNew seen gs
      → length (distinct_keys (map key (rows gs)) seen) ≡ length seen + length gs
  unfolding rows
  length-distinct_keys-from [] seen h e n = unfold distinct_keys in omega arith
  length-distinct_keys-from (g ∷ gs) seen h e n =
      ap length (
        ap (λ ks. distinct_keys ks seen) (map-append key (rows_of g) (rows gs))
        ∙ distinct_keys-group g (map key (rows gs)) seen n.0 e.0)
      ∙ omega (
        arith,
        length-distinct_keys-from gs (g.id ∷ seen) h.1 e.1 (IsNew-cons g.id seen gs h.0 n.1),
      )

  IsNew-nil : (gs : List (Group A)) → IsNew [] gs
  unfolding has_key
  IsNew-nil [] = tt
  IsNew-nil (g ∷ gs) = (refl, IsNew-nil gs)

  pub length-distinct_keys :
      (gs : List (Group A))
      → HasDistinctKeys gs
      → IsKeyed key gs
      → length (distinct_keys (map key (rows gs)) []) ≡ length gs
  length-distinct_keys gs h e = omega (arith, length-distinct_keys-from gs [] h e (IsNew-nil gs))
