-- ===== src/Text/Space.antt =====
-- `strings.TrimSpace` and `strings.TrimRight`.
use walletd_go.Base.{
  ℕ, zero, suc, Bool, ◌&&◌, ◌||◌, List, [], ◌∷◌, ◌++◌, leb, ◌==◌, if◌then◌else◌, Bytes, take, drop,
  length, codes, ◌≡◌, refl,
}
use walletd_go.Text.Utf8.{decode_rune}

-- `unicode.IsSpace`
is_space : ℕ → Bool
is_space r =
    (leb 0x09 r && leb r 0x0d)
    || r == 0x20
    || r == 0x85
    || r == 0xa0
    || r == 0x1680
    || (leb 0x2000 r && leb r 0x200a)
    || r == 0x2028
    || r == 0x2029
    || r == 0x202f
    || r == 0x205f
    || r == 0x3000

-- A string as its runes, each with its bytes. The fuel is the length.
chunks : ℕ → Bytes → List (ℕ × Bytes)
chunks zero s = []
chunks (suc fuel) [] = []
chunks (suc fuel) (b0 ∷ rest) =
    let (r, extra) = decode_rune b0 rest in
    (r, b0 ∷ take extra rest) ∷ chunks fuel (drop extra rest)

trim_left : List (ℕ × Bytes) → List (ℕ × Bytes)
trim_left [] = []
trim_left ((r, bytes) ∷ rest) = if is_space r then trim_left rest else (r, bytes) ∷ rest

-- A rune goes if it is space and nothing behind it stays.
keep_unless_space : ℕ × Bytes → List (ℕ × Bytes) → List (ℕ × Bytes)
keep_unless_space (r, bytes) [] = if is_space r then [] else (r, bytes) ∷ []
keep_unless_space c (d ∷ rest) = c ∷ d ∷ rest

trim_right_space : List (ℕ × Bytes) → List (ℕ × Bytes)
trim_right_space [] = []
trim_right_space (c ∷ rest) = keep_unless_space c (trim_right_space rest)

joined : List (ℕ × Bytes) → Bytes
joined [] = []
joined ((r, bytes) ∷ rest) = bytes ++ joined rest

unfoldable pub trim_space : Bytes → Bytes
unfolding is_space chunks trim_left keep_unless_space trim_right_space joined decode_rune
trim_space s = joined (trim_right_space (trim_left (chunks (length s) s)))

-- `strings.TrimRight(s, "/")`
keep_unless_slash : ℕ → Bytes → Bytes
keep_unless_slash c [] = if c == b'/' then [] else c ∷ []
keep_unless_slash c (d ∷ rest) = c ∷ d ∷ rest

unfoldable pub trim_slashes : Bytes → Bytes
unfolding keep_unless_slash
trim_slashes [] = []
trim_slashes (c ∷ s) = keep_unless_slash c (trim_slashes s)

trims : trim_space (codes " \t120 ") ≡ codes "120"
unfolding trim_space
trims = refl

trims_slashes : trim_slashes (codes "https://a/b//") ≡ codes "https://a/b"
unfolding trim_slashes
trims_slashes = refl
