-- ===== src/Base.antt =====
-- The names that the other modules share: the libraries', passed on, and those of the children.
mod Tests
mod Lists
mod Int
mod Strings
pub use Tests.*
pub use Lists.*
unfoldable pub use Int.{◌+ℤ◌, ◌-ℤ◌, wrap64}
pub use Int.{
  ℤ, pos, negsuc, pos_part, neg_part, sub_ℕ, ◌≤ℤ◌, ◌<ℤ◌, ltb_ℤ, leb_ℤ, +ℤ_parts, -ℤ_parts, ≤ℤ_refl,
  ≤ℤ_trans, +ℤ-≤ℤ, +ℤ-nonpos, eq_of_parts, two63, two64, signed, word, IsInt64,
  wrap64-eq_of_IsInt64, wrap64-IsInt64,
}
unfoldable pub use Strings.{beq}
pub use Strings.{Bytes, codes, beq→eq, beq_refl, nonempty}
pub use Prim.Native.Nat.{ℕ, zero, suc, ◌+◌, ◌-◌, ◌*◌, ◌/◌, ◌%◌, ◌^◌, ◌≤◌, ◌<◌, min, max}
pub use Prim.Native.String.{String}
pub use mathlib.Core.Path.{◌≡◌, refl, sym, ap, ◌∙◌, subst, fun_ext}
pub use mathlib.Core.Logic.{◌≢◌, ◌↔◌, ◌⊎◌, inl, inr}
pub use mathlib.Core.Bool.{Bool, true, false, not, ◌&&◌, ◌||◌}
pub use mathlib.Core.Option.{Option, none, some}
pub use mathlib.Core.List.{List, [], ◌∷◌, ◌++◌, map, append-nil, append_assoc}
pub use native.Mathlib.Omega.{arith}
pub use text.Mathlib.Text.{◌==◌ as str_eq}
pub use text.Mathlib.TextEquality.{eq_iff}
pub use text.Mathlib.TextPositions.{eq_refl}
