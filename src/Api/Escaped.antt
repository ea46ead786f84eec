-- ===== src/Api/Escaped.antt =====
-- `url.QueryEscape` against a reader of its own: what it escapes is read back, and it leaves no separator.
use walletd_go.Base.{
  ℕ, ◌+◌, ◌*◌, ◌/◌, ◌%◌, ◌<◌, true, false, Option, none, some, [], ◌∷◌, All, ltb, ◌==◌,
  if◌then◌else◌, Bytes, ◌≡◌, ◌≢◌, refl, ap, ◌∙◌, inl, inr, Bool-cases, arith,
}
use walletd_go.Webhook.Hex.{hex_value, hex_pair}
use walletd_go.Api.Values.{unreserved, upper_hex, query_escape}

-- A byte in front of what was read.
unfoldable pub in_front : ℕ → Option Bytes → Option Bytes
in_front c none = none
in_front c (some s) = some (c ∷ s)

-- A byte outside an escape: a plus is a space.
unfoldable pub plain : ℕ → ℕ
plain c = if c == b'+' then b' ' else c

-- The reader: a percent sign and two hexadecimal digits are a byte; `none` if digits are missing.
unfoldable pub unescape : Bytes → Option Bytes
unfolding in_front plain hex_pair hex_value
unescape [] = some []
unescape (c ∷ []) = if c == b'%' then none else some (plain c ∷ [])
unescape (c ∷ d ∷ []) =
    let rest = unescape (d ∷ []) in if c == b'%' then none else in_front (plain c) rest
unescape (c ∷ d ∷ e ∷ s) =
    let rest = unescape (d ∷ e ∷ s) in
    let behind = unescape s in
    if c == b'%' then hex_pair (hex_value d) (hex_value e) behind else in_front (plain c) rest

unescape-plain :
    (c : ℕ) (s : Bytes) → (c == b'%') ≡ false → unescape (c ∷ s) ≡ in_front (plain c) (unescape s)
unfolding unescape
unescape-plain c [] other = rw other refl
unescape-plain c (d ∷ []) other = rw other refl
unescape-plain c (d ∷ e ∷ s) other = rw other refl

hex_value-upper_hex : (n : ℕ) → n < 16 → hex_value (upper_hex n) ≡ some n
unfolding hex_value upper_hex
hex_value-upper_hex n h = elim (Bool-cases (ltb n 10)) [
  | inl low ↦ ground arith
  | inr high ↦ ground arith
]

unescape_escaped :
    (c : ℕ) (s t : Bytes)
    → c < 256
    → unescape s ≡ some t
    → unescape (b'%' ∷ upper_hex (c / 16) ∷ upper_hex (c % 16) ∷ s) ≡ some (c ∷ t)
unfolding unescape
unescape_escaped c s t h e =
    rw (hex_value-upper_hex (c / 16) (omega arith), hex_value-upper_hex (c % 16) (omega arith), e)
      (ap (λ v. some (v ∷ t)) (same c))
  where
    same : (b : ℕ) → b / 16 * 16 + b % 16 ≡ b
    same b = omega arith

-- What an unreserved byte is not.
unreserved-plain : (c : ℕ) → unreserved c ≡ true → ((c == b'%') ≡ false) × (plain c ≡ c)
unfolding unreserved plain
unreserved-plain c h = (ground arith, ground arith)

space_read : (c : ℕ) → (c == b' ') ≡ true → plain b'+' ≡ c
unfolding plain
space_read c h = ground arith

-- Whatever the bytes are, escaping keeps them.
pub unescape-query_escape : (s : Bytes) → All (λ c. c < 256) s → unescape (query_escape s) ≡ some s
unfolding query_escape in_front
unescape-query_escape [] h = unfold unescape in refl
unescape-query_escape (c ∷ s) (small, h) =
    let rest = unescape-query_escape s h in
    elim (Bool-cases (unreserved c)) [
      | inl kept ↦
          let (no_escape, same) = unreserved-plain c kept in
          rw kept (unescape-plain c (query_escape s) no_escape ∙ rw (rest, same) refl)
      | inr changed ↦ elim (Bool-cases (c == b' ')) [
        | inl space ↦
            rw (changed, space)
              (unescape-plain b'+' (query_escape s) refl
                ∙ rw rest (ap (λ v. some (v ∷ s)) (space_read c space)))
        | inr other ↦ rw (changed, other) (unescape_escaped c (query_escape s) s small rest)
      ]
    ]

-- The separators of a query.
abbrev pub IsPart : Bytes → Type 0
IsPart = All (λ c. (c ≢ b'&') × (c ≢ b'='))

upper_hex_part : (n : ℕ) → n < 16 → (upper_hex n ≢ b'&') × (upper_hex n ≢ b'=')
unfolding upper_hex
upper_hex_part n h = (ground arith, ground arith)

unreserved_part : (c : ℕ) → unreserved c ≡ true → (c ≢ b'&') × (c ≢ b'=')
unfolding unreserved
unreserved_part c h = (ground arith, ground arith)

pub query_escape-IsPart : (s : Bytes) → All (λ c. c < 256) s → IsPart (query_escape s)
unfolding query_escape
query_escape-IsPart [] h = tt
query_escape-IsPart (c ∷ s) (small, h) =
    let rest = query_escape-IsPart s h in
    elim (Bool-cases (unreserved c)) [
      | inl kept ↦ rw kept (unreserved_part c kept, rest)
      | inr changed ↦ elim (Bool-cases (c == b' ')) [
        | inl space ↦ rw (changed, space) ((omega arith, omega arith), rest)
        | inr other ↦
            rw (changed, other)
              (
                (omega arith, omega arith),
                (
                  upper_hex_part (c / 16) (omega arith),
                  (upper_hex_part (c % 16) (omega arith), rest),
                ),
              )
      ]
    ]
