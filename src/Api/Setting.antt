-- ===== src/Api/Setting.antt =====
-- Set and Get of url.Values: what a reader gets behind a Set.
use walletd_go.Base.{
  Bool, true, false, Option, some, [], ◌∷◌, if◌then◌else◌, Bytes, beq, beq→eq, beq_refl, ◌≡◌, refl,
  sym, ap, ◌∙◌, true-ne-false, not, Bool-cases, inl, inr,
}
use walletd_go.Api.Values.{Values, get, set, before}

-- A later value of the same key is not read.
shadowed :
    {A : Type 0} (b c : Bool)
    → c ≡ b
    → (x y : A) (o : Option A)
    → (if b then some x else o) ≡ (if b then some x else if c then some y else o)
shadowed true c e x y o = refl
shadowed false true e x y o = absurd cc
shadowed false false e x y o = refl

-- A value is read back under its key, and the others stay.
pub get-set :
    (key k value : Bytes) (q : Values)
    → get k (set key value q) ≡ (if beq key k then some value else get k q)
unfolding get set
get-set key k value [] = refl
get-set key k value ((j, v) ∷ q) = elim (Bool-cases (beq j key)) [
  | inl same ↦
      rw (same, get)
        (shadowed (beq key k) (beq j k) (ap (λ i. beq i k) (beq→eq j key same)) value v (get k q))
  | inr other ↦ elim (Bool-cases (before key j)) [
    | inl first ↦ rw (other, first) refl
    | inr later ↦
        rw (other, later, get)
          (elim (Bool-cases (beq j k)) [
            | inr c ↦ rw c (get-set key k value q)
            | inl c ↦ elim (Bool-cases (beq key k)) [
              | inr d ↦ rw (c, d) refl
              | inl d ↦ absurd (
                  true-ne-false (
                    sym (ap (λ i. beq i key) (beq→eq j k c ∙ sym (beq→eq key k d)) ∙ beq_refl key)
                    ∙ other))
            ]
          ])
  ]
]

-- A value that is stored under the key that is read, if it is stored at all.
abbrev pub chosen : {A : Type 0} → Bool → Bool → A → A → A
chosen true stored x y = if stored then x else y
chosen false stored x y = y

pub chosen_absent : {A : Type 0} (b : Bool) (x y : A) → y ≡ chosen b false x y
chosen_absent true x y = refl
chosen_absent false x y = refl

chosen_stored : {A : Type 0} (b : Bool) (x y : A) → (if b then x else y) ≡ chosen b true x y
chosen_stored true x y = refl
chosen_stored false x y = refl

-- What is read after a conditional `Set`.
pub get-set_if :
    (stored : Bool) (key k value : Bytes) (q : Values)
    → get k (if stored then set key value q else q)
      ≡ chosen (beq key k) stored (some value) (get k q)
get-set_if true key k value q =
    get-set key k value q ∙ chosen_stored (beq key k) (some value) (get k q)
get-set_if false key k value q = chosen_absent (beq key k) (some value) (get k q)

pub get-set_unless :
    (absent : Bool) (key k value : Bytes) (q : Values)
    → get k (if absent then q else set key value q)
      ≡ chosen (beq key k) (not absent) (some value) (get k q)
get-set_unless true key k value q = chosen_absent (beq key k) (some value) (get k q)
get-set_unless false key k value q =
    get-set key k value q ∙ chosen_stored (beq key k) (some value) (get k q)
