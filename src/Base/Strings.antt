-- ===== src/Base/Strings.antt =====
-- Go strings as bytes, their literals and their comparison.
use Prim.Native.Nat.{ℕ}
use Prim.Native.Char.{code}
use Prim.Native.String.{String}
use mathlib.Core.Path.{◌≡◌, refl}
use mathlib.Core.Logic.{◌≢◌}
use mathlib.Core.Bool.{Bool, true, false, ◌&&◌}
use mathlib.Core.List.{List, [], ◌∷◌}
use native.Mathlib.Omega.{arith}
use walletd_go.Base.Tests.{◌==◌}

abbrev pub Bytes : Type 0
Bytes = List ℕ

-- The code points of a literal: its bytes, since the program's literals are ASCII.
abbrev pub codes : String → Bytes
codes String.[] = []
codes (String.◌∷◌ c s) = code c ∷ codes s

-- s == t on Go strings
unfoldable pub beq : Bytes → Bytes → Bool
beq [] [] = true
beq [] (d ∷ t) = false
beq (c ∷ s) [] = false
beq (c ∷ s) (d ∷ t) = c == d && beq s t

pub beq→eq : (s t : Bytes) → beq s t ≡ true → s ≡ t
unfolding beq
beq→eq [] [] h = refl
beq→eq [] (d ∷ t) h = cc
beq→eq (c ∷ s) [] h = cc
beq→eq (c ∷ s) (d ∷ t) h = ground (arith, beq→eq s t)

pub beq_refl : (s : Bytes) → beq s s ≡ true
unfolding beq
beq_refl [] = refl
beq_refl (c ∷ s) = ground (arith, beq_refl s)

pub nonempty : (s : Bytes) → beq s [] ≡ false → s ≢ []
unfolding beq
nonempty [] h e = absurd cc
nonempty (c ∷ s) h e = cc
