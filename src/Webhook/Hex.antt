-- ===== src/Webhook/Hex.antt =====
-- `hex.EncodeToString` and `hex.DecodeString`.
use walletd_go.Base.{
  ℕ, ◌+◌, ◌-◌, ◌*◌, ◌/◌, ◌%◌, ◌≤◌, ◌<◌, ◌&&◌, Option, none, some, [], ◌∷◌, All, ltb, leb,
  if◌then◌else◌, Bytes, ◌≡◌, refl, ap, arith, Bool-cases, inl, inr,
}

unfoldable pub hex_digit : ℕ → ℕ
hex_digit n = if ltb n 10 then 48 + n else 87 + n

unfoldable pub hex_encode : Bytes → Bytes
unfolding hex_digit
hex_encode [] = []
hex_encode (b ∷ s) = hex_digit (b / 16) ∷ hex_digit (b % 16) ∷ hex_encode s

-- The value of a digit of either case.
unfoldable pub hex_value : ℕ → Option ℕ
hex_value c =
    if leb 48 c && leb c 57
    then some (c - 48)
    else if leb 97 c && leb c 102
    then some (c - 87)
    else if leb 65 c && leb c 70
    then some (c - 55)
    else none

unfoldable pub hex_pair : Option ℕ → Option ℕ → Option Bytes → Option Bytes
hex_pair (some high) (some low) (some rest) = some ((high * 16 + low) ∷ rest)
hex_pair (some high) (some low) none = none
hex_pair (some high) none rest = none
hex_pair none low rest = none

-- `none` stands for its error: an odd length or another character.
unfoldable pub hex_decode : Bytes → Option Bytes
unfolding hex_value hex_pair
hex_decode [] = some []
hex_decode (c ∷ []) = none
hex_decode (c ∷ d ∷ s) = hex_pair (hex_value c) (hex_value d) (hex_decode s)

hex_value_lem : (n : ℕ) → n < 16 → hex_value (hex_digit n) ≡ some n
unfolding hex_value hex_digit
hex_value_lem n h = elim (Bool-cases (ltb n 10)) [
  | inl low ↦ ground arith
  | inr high ↦ ground arith
]

pub hex_decode-hex_encode : (s : Bytes) → All (λ b. b < 256) s → hex_decode (hex_encode s) ≡ some s
unfolding hex_decode hex_encode hex_pair
hex_decode-hex_encode [] h = refl
hex_decode-hex_encode (b ∷ s) (hb, hs) =
    rw
      (
        hex_value_lem (b / 16) (omega arith),
        hex_value_lem (b % 16) (omega arith),
        hex_decode-hex_encode s hs,
      )
      (ap (λ v. some (v ∷ s)) (same b))
  where
    same : (b : ℕ) → b / 16 * 16 + b % 16 ≡ b
    same b = omega arith

-- No digit is a comma.
pub hex_encode-commaless : (s : Bytes) → All (λ b. b < 256) s → All (λ c. 48 ≤ c) (hex_encode s)
unfolding hex_encode hex_digit
hex_encode-commaless [] h = tt
hex_encode-commaless (b ∷ s) (hb, hs) = (ground arith, (ground arith, hex_encode-commaless s hs))
