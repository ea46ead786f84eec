-- ===== src/Text/Utf8.antt =====
-- Decoding of UTF-8 as a `range` loop over a string does it: `utf8.DecodeRuneInString`.
use walletd_go.Base.{
  ℕ, zero, suc, ◌+◌, ◌-◌, ◌*◌, ◌≤◌, ◌<◌, Bool, true, false, ◌&&◌, List, [], ◌∷◌, ◌≡◌, refl, ltb,
  leb, if◌then◌else◌, Bytes, drop, length, arith, lt→ltb,
}

-- `utf8.RuneError`
abbrev pub rune_error : ℕ
rune_error = 0xfffd

between : ℕ → ℕ → ℕ → Bool
between lo hi b = leb lo b && leb b hi

is_continuation : ℕ → Bool
unfolding between
is_continuation = between 0x80 0xbf

-- A rune, and how many bytes behind its first it takes.
abbrev pub Decoded : Type 0
Decoded = ℕ × ℕ

abbrev invalid : Decoded
invalid = (rune_error, 0)

two_bytes : ℕ → Bytes → Decoded
unfolding is_continuation
two_bytes b0 (b1 ∷ _) = if is_continuation b1 then ((b0 - 0xc0) * 64 + (b1 - 0x80), 1) else invalid
two_bytes b0 [] = invalid

-- The second byte is in a range of its own.
three_bytes : ℕ → ℕ → ℕ → Bytes → Decoded
unfolding is_continuation between
three_bytes lo hi b0 (b1 ∷ b2 ∷ _) =
    if between lo hi b1 && is_continuation b2
    then ((b0 - 0xe0) * 4096 + (b1 - 0x80) * 64 + (b2 - 0x80), 2)
    else invalid
three_bytes lo hi b0 (b1 ∷ []) = invalid
three_bytes lo hi b0 [] = invalid

four_bytes : ℕ → ℕ → ℕ → Bytes → Decoded
unfolding is_continuation between
four_bytes lo hi b0 (b1 ∷ b2 ∷ b3 ∷ _) =
    if between lo hi b1 && is_continuation b2 && is_continuation b3
    then ((b0 - 0xf0) * 262144 + (b1 - 0x80) * 4096 + (b2 - 0x80) * 64 + (b3 - 0x80), 3)
    else invalid
four_bytes lo hi b0 (b1 ∷ b2 ∷ []) = invalid
four_bytes lo hi b0 (b1 ∷ []) = invalid
four_bytes lo hi b0 [] = invalid

-- The first rune of `b0 ∷ rest`.
unfoldable pub decode_rune : ℕ → Bytes → Decoded
unfolding two_bytes three_bytes four_bytes between
decode_rune b0 rest =
    if ltb b0 0x80
    then (b0, 0)
    else if between 0xc2 0xdf b0
    then two_bytes b0 rest
    else if leb b0 0xe0 && leb 0xe0 b0
    then three_bytes 0xa0 0xbf b0 rest
    else if leb b0 0xed && leb 0xed b0
    then three_bytes 0x80 0x9f b0 rest
    else if between 0xe1 0xef b0
    then three_bytes 0x80 0xbf b0 rest
    else if leb b0 0xf0 && leb 0xf0 b0
    then four_bytes 0x90 0xbf b0 rest
    else if between 0xf1 0xf3 b0
    then four_bytes 0x80 0xbf b0 rest
    else if leb b0 0xf4 && leb 0xf4 b0
    then four_bytes 0x80 0x8f b0 rest
    else invalid

-- The runes of a string; the fuel is its length.
unfoldable pub runes_from : ℕ → Bytes → List ℕ
runes_from zero s = []
runes_from (suc fuel) [] = []
runes_from (suc fuel) (b0 ∷ rest) =
    let (r, extra) = decode_rune b0 rest in r ∷ runes_from fuel (drop extra rest)

unfoldable pub runes : Bytes → List ℕ
unfolding runes_from decode_rune
runes s = runes_from (length s) s

two_bytes-big : (b0 : ℕ) (rest : Bytes) → 0xc2 ≤ b0 → 0x80 ≤ (two_bytes b0 rest).0
unfolding two_bytes
two_bytes-big b0 [] h = omega arith
two_bytes-big b0 (b1 ∷ rest) h = ground arith

three_bytes-big :
    (lo hi b0 : ℕ) (rest : Bytes)
    → 0x80 ≤ lo
    → 0xe0 * 64 + 0xa0 ≤ b0 * 64 + lo
    → 0xe0 ≤ b0
    → 0x80 ≤ (three_bytes lo hi b0 rest).0
unfolding three_bytes
three_bytes-big lo hi b0 [] l m h = omega arith
three_bytes-big lo hi b0 (b1 ∷ []) l m h = omega arith
three_bytes-big lo hi b0 (b1 ∷ b2 ∷ rest) l m h = ground arith

four_bytes-big :
    (lo hi b0 : ℕ) (rest : Bytes)
    → 0x80 ≤ lo
    → 0xf0 * 64 + 0x90 ≤ b0 * 64 + lo
    → 0xf0 ≤ b0
    → 0x80 ≤ (four_bytes lo hi b0 rest).0
unfolding four_bytes
four_bytes-big lo hi b0 [] l m h = omega arith
four_bytes-big lo hi b0 (b1 ∷ []) l m h = omega arith
four_bytes-big lo hi b0 (b1 ∷ b2 ∷ []) l m h = omega arith
four_bytes-big lo hi b0 (b1 ∷ b2 ∷ b3 ∷ rest) l m h = ground arith

if-big :
    (b : Bool) (x y : Decoded)
    → (b ≡ true → 0x80 ≤ x.0)
    → (b ≡ false → 0x80 ≤ y.0)
    → 0x80 ≤ (if b then x else y).0
if-big true x y hx hy = hx refl
if-big false x y hx hy = hy refl

-- A byte that is not ASCII never begins an ASCII rune.
pub decode_rune-big : (b0 : ℕ) (rest : Bytes) → 0x80 ≤ b0 → 0x80 ≤ (decode_rune b0 rest).0
unfolding decode_rune
decode_rune-big b0 rest h =
    if-big (ltb b0 0x80) _ _ (λ e. absurd (ground arith))
      λ _.
        if-big (between 0xc2 0xdf b0) _ _ (λ e. two_bytes-big b0 rest (ground arith))
          λ _.
            if-big (leb b0 0xe0 && leb 0xe0 b0) _ _
              (λ e. three_bytes-big 0xa0 0xbf b0 rest (omega arith) (ground arith) (ground arith))
              λ _.
                if-big (leb b0 0xed && leb 0xed b0) _ _
                  (λ e.
                    three_bytes-big 0x80 0x9f b0 rest (omega arith) (ground arith) (ground arith))
                  λ _.
                    if-big (between 0xe1 0xef b0) _ _
                      (λ e.
                        three_bytes-big 0x80 0xbf b0 rest (omega arith) (ground arith)
                          (ground arith))
                      λ _.
                        if-big (leb b0 0xf0 && leb 0xf0 b0) _ _
                          (λ e.
                            four_bytes-big 0x90 0xbf b0 rest (omega arith) (ground arith)
                              (ground arith))
                          λ _.
                            if-big (between 0xf1 0xf3 b0) _ _
                              (λ e.
                                four_bytes-big 0x80 0xbf b0 rest (omega arith) (ground arith)
                                  (ground arith))
                              λ _.
                                if-big (leb b0 0xf4 && leb 0xf4 b0) _ _
                                  (λ e.
                                    four_bytes-big 0x80 0x8f b0 rest (omega arith) (ground arith)
                                      (ground arith))
                                  λ _. omega arith

pub decode_rune-ascii : (b0 : ℕ) (rest : Bytes) → b0 < 0x80 → decode_rune b0 rest ≡ (b0, 0)
unfolding decode_rune
decode_rune-ascii b0 rest h = rw (lt→ltb b0 0x80 h)
