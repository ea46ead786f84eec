-- ===== src/Tests/Enums.antt =====
-- The enums at one string.
use walletd_go.Base.{true, All, codes, ◌≡◌, ◌↔◌}
use walletd_go.Types.Enums.{IsOneOf, EnumType, enums, valid_iff}

valid_iff_example :
    All
      (λ (e : EnumType). (e.valid (codes "active") ≡ true) ↔ IsOneOf (codes "active") e.values)
      enums
valid_iff_example = valid_iff (codes "active")
