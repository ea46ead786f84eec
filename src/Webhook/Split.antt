-- ===== src/Webhook/Split.antt =====
-- `strings.Split` at one byte, and `strings.HasPrefix`.
use walletd_go.Base.{
  ℕ, Bool, true, false, ◌&&◌, List, [], ◌∷◌, ◌++◌, All, ◌==◌, if◌then◌else◌, Bytes, ◌≡◌, refl, ap,
  ◌∙◌, arith, ◌≢◌, ne→==-false,
}

unfoldable pub to_first : ℕ → List Bytes → List Bytes
to_first c [] = (c ∷ []) ∷ []
to_first c (part ∷ parts) = (c ∷ part) ∷ parts

unfoldable pub split : ℕ → Bytes → List Bytes
unfolding to_first
split sep [] = [] ∷ []
split sep (c ∷ s) = let parts = split sep s in if c == sep then [] ∷ parts else to_first c parts

unfoldable pub has_prefix : Bytes → Bytes → Bool
has_prefix s [] = true
has_prefix [] (p ∷ ps) = false
has_prefix (c ∷ s) (p ∷ ps) = c == p && has_prefix s ps

pub split_none : (sep : ℕ) (s : Bytes) → All (λ c. c ≢ sep) s → split sep s ≡ s ∷ []
unfolding split to_first
split_none sep [] h = refl
split_none sep (c ∷ s) (hc, hs) = rw (ne→==-false c sep hc, split_none sep s hs) refl

pub split_first :
    (sep : ℕ) (s t : Bytes) → All (λ c. c ≢ sep) s → split sep (s ++ sep ∷ t) ≡ s ∷ split sep t
unfolding split to_first
split_first sep [] t hs = rw (==_refl sep) refl
  where
    ==_refl : (n : ℕ) → (n == n) ≡ true
    ==_refl n = ground arith
split_first sep (c ∷ s) t (hc, hs) = rw (ne→==-false c sep hc, split_first sep s t hs) refl

pub split_once :
    (sep : ℕ) (s t : Bytes)
    → All (λ c. c ≢ sep) s
    → All (λ c. c ≢ sep) t
    → split sep (s ++ sep ∷ t) ≡ s ∷ t ∷ []
split_once sep s t hs ht = split_first sep s t hs ∙ ap (λ l. s ∷ l) (split_none sep t ht)
