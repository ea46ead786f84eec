-- ===== src/Client/Shifts.antt =====
-- The arithmetic of the shift in backoff: base << (attempt - 1) on an int64, and its cap.
use walletd_go.Base.{
  ℕ, zero, suc, ◌+◌, ◌-◌, ◌*◌, ◌^◌, min, ◌≤◌, ◌<◌, ltb, if◌then◌else◌, true, ◌||◌, ℤ, pos, negsuc,
  ltb_ℤ, leb_ℤ, ◌<ℤ◌, pos_part, wrap64, wrap64-eq_of_IsInt64, ◌≡◌, refl, sym, ap, ◌∙◌, ◌⊎◌, inl,
  inr, Bool-cases, arith,
}
use native.Mathlib.Nat.{mul-le-mul, mul-pos, mul_left_comm, pow-le-pow_right, pow-succ'}

-- A shifted word is 0, negative or at least as large as the last bit that it can keep.
shifted-large :
    (m : ℕ) → let d = wrap64 (pos (2 ^ 34 * m)) in (leb_ℤ d (pos 0) ≡ true) ⊎ (2 ^ 34 ≤ pos_part d)
unfolding wrap64
shifted-large m = ground arith

shifted-small : (b p : ℕ) → b < 2 ^ 30 → p ≤ 2 ^ 33 → b * p < 2 ^ 63
shifted-small b p hb hp = let hb' : b ≤ 2 ^ 30 - 1 = omega arith in omega (arith, mul-le-mul hb' hp)

pow-split : (k : ℕ) → 2 ^ (34 + k) ≡ 2 ^ 34 * 2 ^ k
pow-split zero = refl
pow-split (suc k) =
    let next : 34 + suc k ≡ suc (34 + k) = omega arith in
    omega (arith, pow-split k, ap (λ n. 2 ^ n) next, pow-succ' 2 (34 + k), pow-succ' 2 k)

-- The cap on a step that is a number.
capped_lem :
    (cap d : ℤ) (x : ℕ)
    → d ≡ pos x
    → 0 < x
    → pos 0 <ℤ cap
    → (if ltb_ℤ cap d || leb_ℤ d (pos 0) then cap else d) ≡ pos (min x (pos_part cap))
capped_lem (pos cap) (pos d) x e positive h =
    let same : d ≡ x = ap pos_part e in
    elim (Bool-cases (ltb cap d)) [ inl over ↦ ground arith | inr under ↦ ground arith ]
capped_lem (pos cap) (negsuc d) x e positive h = absurd cc
capped_lem (negsuc cap) d x e positive h = absurd (omega arith)

-- The cap on a step that the shift has overflown.
overflown_lem :
    (cap d : ℤ)
    → cap <ℤ pos (2 ^ 34)
    → (leb_ℤ d (pos 0) ≡ true) ⊎ (2 ^ 34 ≤ pos_part d)
    → (if ltb_ℤ cap d || leb_ℤ d (pos 0) then cap else d) ≡ cap
overflown_lem cap d small h = ground arith

pub range :
    (z : ℤ) (n : ℕ)
    → pos 0 <ℤ z
    → z <ℤ pos n
    → (0 < pos_part z) × (pos_part z < n) × (z ≡ pos (pos_part z))
range (pos z) n low high = (omega arith, omega arith, refl)
range (negsuc z) n low high = absurd (omega arith)

-- The product behind a shift by 34 or more.
late_product : (b k : ℕ) → 0 < b → (m : ℕ) × (b * 2 ^ (34 + k) ≡ 2 ^ 34 * m) × (0 < m)
late_product b k h =
    let power : 2 ^ 0 ≤ 2 ^ k =
      pow-le-pow_right {n = 2} (omega arith) {i = 0} {j = k} (omega arith) in
    let some_bit : 0 < b * 2 ^ k = mul-pos h power in
    (b * 2 ^ k, ap (λ p. b * p) (pow-split k) ∙ mul_left_comm b (2 ^ 34) (2 ^ k), some_bit)

pub step_early :
    (b k limit : ℕ)
    → 0 < b
    → b < 2 ^ 30
    → 0 < limit
    → k ≤ 33
    → (if ltb_ℤ (pos limit) (wrap64 (pos (b * 2 ^ k))) || leb_ℤ (wrap64 (pos (b * 2 ^ k))) (pos 0)
        then pos limit
        else wrap64 (pos (b * 2 ^ k)))
      ≡ pos (min (b * 2 ^ k) limit)
step_early b k limit base base_small above early =
    let power : 2 ^ k ≤ 2 ^ 33 = pow-le-pow_right {n = 2} (omega arith) {i = k} {j = 33} early in
    let low : 2 ^ 0 ≤ 2 ^ k =
      pow-le-pow_right {n = 2} (omega arith) {i = 0} {j = k} (omega arith) in
    let fits : b * 2 ^ k < 2 ^ 63 = shifted-small b (2 ^ k) base_small power in
    let positive : 0 < b * 2 ^ k = mul-pos base low in
    capped_lem (pos limit) (wrap64 (pos (b * 2 ^ k))) (b * 2 ^ k)
      (wrap64-eq_of_IsInt64 (pos (b * 2 ^ k)) fits) positive (omega (arith, above))

pub step_late :
    (b k limit : ℕ)
    → 0 < b
    → limit < 2 ^ 34
    → (if ltb_ℤ (pos limit) (wrap64 (pos (b * 2 ^ (34 + k))))
          || leb_ℤ (wrap64 (pos (b * 2 ^ (34 + k)))) (pos 0)
        then pos limit
        else wrap64 (pos (b * 2 ^ (34 + k))))
      ≡ pos (min (b * 2 ^ (34 + k)) limit)
step_late b k limit base limit_small =
    let (m, e, positive) = late_product b k base in
    let least : min (2 ^ 34 * m) limit ≡ limit = omega (arith, positive, limit_small) in
    rw e (
      overflown_lem (pos limit) (wrap64 (pos (2 ^ 34 * m))) (omega (arith, limit_small))
        (shifted-large m)
      ∙ ap pos (sym least))
