-- ===== src/Base/Int.antt =====
-- Go's signed integers: the integers over the native numbers, and the wrap-around of a 64-bit word.
use Prim.Native.Nat.{ℕ, suc, ◌+◌, ◌-◌, ◌%◌, ◌^◌, ◌≤◌, ◌<◌}
use mathlib.Core.Path.{◌≡◌}
use mathlib.Core.Bool.{Bool, true}
use native.Mathlib.Omega.{arith}
use walletd_go.Base.Tests.{ltb, leb, if◌then◌else◌}

-- `negsuc n` is -(n + 1).
pub data ℤ : Type 0 where
  pos : ℕ → ℤ
  negsuc : ℕ → ℤ

abbrev pub pos_part : ℤ → ℕ
pos_part (pos n) = n
pos_part (negsuc n) = 0

abbrev pub neg_part : ℤ → ℕ
neg_part (pos n) = 0
neg_part (negsuc n) = suc n

-- a - b, as an integer.
abbrev pub sub_ℕ : ℕ → ℕ → ℤ
sub_ℕ a b = if leb b a then pos (a - b) else negsuc (b - a - 1)

infixl 65 ◌+ℤ◌ ◌-ℤ◌
infix 50 ◌≤ℤ◌ ◌<ℤ◌
unfoldable pub ◌+ℤ◌ : ℤ → ℤ → ℤ
a +ℤ b = sub_ℕ (pos_part a + pos_part b) (neg_part a + neg_part b)

unfoldable pub ◌-ℤ◌ : ℤ → ℤ → ℤ
a -ℤ b = sub_ℕ (pos_part a + neg_part b) (neg_part a + pos_part b)

abbrev pub ◌≤ℤ◌ : ℤ → ℤ → Type 0
a ≤ℤ b = pos_part a + neg_part b ≤ pos_part b + neg_part a

abbrev pub ◌<ℤ◌ : ℤ → ℤ → Type 0
a <ℤ b = pos_part a + neg_part b < pos_part b + neg_part a

abbrev pub ltb_ℤ : ℤ → ℤ → Bool
ltb_ℤ a b = ltb (pos_part a + neg_part b) (pos_part b + neg_part a)

abbrev pub leb_ℤ : ℤ → ℤ → Bool
leb_ℤ a b = leb (pos_part a + neg_part b) (pos_part b + neg_part a)

pub +ℤ_parts :
    (a b : ℤ)
    → pos_part (a +ℤ b) + neg_part a + neg_part b ≡ neg_part (a +ℤ b) + pos_part a + pos_part b
unfolding ◌+ℤ◌
+ℤ_parts a b = ground arith

pub -ℤ_parts :
    (a b : ℤ)
    → pos_part (a -ℤ b) + neg_part a + pos_part b ≡ neg_part (a -ℤ b) + pos_part a + neg_part b
unfolding ◌-ℤ◌
-ℤ_parts a b = ground arith

pub eq_of_parts : (a b : ℤ) → pos_part a + neg_part b ≡ pos_part b + neg_part a → a ≡ b
eq_of_parts a b h = ground arith

abbrev pub two63 : ℕ
two63 = 2 ^ 63

abbrev pub two64 : ℕ
two64 = 2 ^ 64

-- The two's complement reading of a 64-bit word.
abbrev pub signed : ℕ → ℤ
signed w = if ltb w two63 then pos w else negsuc (two64 - w - 1)

-- The 64-bit word of an integer.
abbrev pub word : ℤ → ℕ
word (pos n) = n % two64
word (negsuc n) = two64 - 1 - n % two64

-- What an int64 expression with this mathematical value evaluates to.
unfoldable pub wrap64 : ℤ → ℤ
wrap64 a = signed (word a)

-- The range of an int64.
abbrev pub IsInt64 : ℤ → Type 0
IsInt64 (pos n) = n < two63
IsInt64 (negsuc n) = n < two63

pub wrap64-eq_of_IsInt64 : (a : ℤ) → IsInt64 a → wrap64 a ≡ a
unfolding wrap64
wrap64-eq_of_IsInt64 (pos n) h = ground arith
wrap64-eq_of_IsInt64 (negsuc n) h = ground arith

pub wrap64-IsInt64 : (a : ℤ) → IsInt64 (wrap64 a)
unfolding wrap64
wrap64-IsInt64 (pos n) = ground arith
wrap64-IsInt64 (negsuc n) = ground arith

pub ≤ℤ_refl : (a : ℤ) → a ≤ℤ a
≤ℤ_refl a = omega arith

pub ≤ℤ_trans : (a b c : ℤ) → a ≤ℤ b → b ≤ℤ c → a ≤ℤ c
≤ℤ_trans a b c h k = omega arith

pub +ℤ-≤ℤ : (a b d c : ℤ) → a ≤ℤ b → b +ℤ d ≤ℤ c → a +ℤ d ≤ℤ c
+ℤ-≤ℤ a b d c h k = omega (arith, h, k, +ℤ_parts a d, +ℤ_parts b d)

pub +ℤ-nonpos : (a b d : ℤ) → a ≤ℤ b → leb_ℤ d (pos 0) ≡ true → a +ℤ d ≤ℤ b
+ℤ-nonpos a b d h k = let small : d ≤ℤ pos 0 = ground arith in omega (arith, h, small, +ℤ_parts a d)
