-- ===== src/Text/Decimal.antt =====
-- Decimal print and parse of `strconv`: FormatInt and Itoa, ParseInt in base 10 and Atoi.
use walletd_go.Base.{
  ℕ, zero, suc, ◌+◌, ◌-◌, ◌*◌, ◌/◌, ◌%◌, ◌≤◌, ◌<◌, Bool, true, false, ◌||◌, Option, none, some, [],
  ◌∷◌, ◌≡◌, refl, ltb, ◌==◌, if◌then◌else◌, Bytes, ℤ, pos, negsuc, two63, two64, arith, codes,
  ltb→lt, Bool-cases, inl, inr, ◌∙◌, sym, ap, IsInt64, All,
}

-- The digits of a number, in front of what follows. The fuel is the number itself.
digits_from : ℕ → ℕ → Bytes → Bytes
digits_from zero n rest = (b'0' + n % 10) ∷ rest
digits_from (suc fuel) n rest =
    let more = digits_from fuel (n / 10) ((b'0' + n % 10) ∷ rest) in
    if ltb n 10 then (b'0' + n % 10) ∷ rest else more

-- FormatUint, and Itoa where the number is not negative
unfoldable pub format_uint : ℕ → Bytes
unfolding digits_from
format_uint n = digits_from n n []

-- FormatInt
unfoldable pub format_int : ℤ → Bytes
format_int (pos n) = format_uint n
format_int (negsuc n) = b'-' ∷ format_uint (suc n)

-- The value of digits behind `n`; `none` at a byte that is no digit.
unfoldable pub scan_digits : Bytes → ℕ → Option ℕ
scan_digits [] n = some n
scan_digits (c ∷ s) n =
    let rest = scan_digits s (n * 10 + (c - b'0')) in
    if ltb c b'0' || ltb b'9' c then none else rest

fits : Option ℕ → Option ℕ
fits none = none
fits (some n) = if ltb n two64 then some n else none

-- ParseUint: the empty text and a value past 64 bits are refused too.
unfoldable pub parse_uint : Bytes → Option ℕ
unfolding scan_digits fits
parse_uint [] = none
parse_uint (c ∷ s) = fits (scan_digits (c ∷ s) 0)

-- The range of an int64, for each sign.
unfoldable pub with_sign : Bool → ℕ → Option ℤ
with_sign false n = if ltb n two63 then some (pos n) else none
with_sign true zero = some (pos 0)
with_sign true (suc n) = if ltb n two63 then some (negsuc n) else none

signed_value : Bool → Option ℕ → Option ℤ
signed_value negative none = none
signed_value negative (some n) = with_sign negative n

unfoldable pub parse_signed : Bool → Bytes → Option ℤ
unfolding parse_uint with_sign signed_value
parse_signed negative s = signed_value negative (parse_uint s)

-- ParseInt with base 10 and 64 bits, and Atoi. Which error it is does not matter to the callers.
unfoldable pub parse_int : Bytes → Option ℤ
unfolding parse_signed
parse_int [] = none
parse_int (c ∷ s) =
    if c == b'+'
    then parse_signed false s
    else if c == b'-'
    then parse_signed true s
    else parse_signed false (c ∷ s)

parses : parse_int (codes "-9223372036854775808") ≡ some (negsuc (two63 - 1))
unfolding parse_int
parses = refl

prints : format_int (negsuc 119) ≡ codes "-120"
unfolding format_int format_uint
prints = refl

scan-digit :
    (n : ℕ) (rest : Bytes) → scan_digits ((b'0' + n % 10) ∷ rest) (n / 10) ≡ scan_digits rest n
unfolding scan_digits
scan-digit n rest = ground arith

scan-small_digit :
    (n : ℕ) (rest : Bytes) → n < 10 → scan_digits ((b'0' + n % 10) ∷ rest) 0 ≡ scan_digits rest n
scan-small_digit n rest h =
    let none_above : 0 ≡ n / 10 = omega arith in
    ap (scan_digits ((b'0' + n % 10) ∷ rest)) none_above ∙ scan-digit n rest

scan-digits_from :
    (fuel n : ℕ) (rest : Bytes)
    → n ≤ fuel
    → scan_digits (digits_from fuel n rest) 0 ≡ scan_digits rest n
unfolding digits_from
scan-digits_from zero n rest h = scan-small_digit n rest (omega arith)
scan-digits_from (suc fuel) n rest h = elim (Bool-cases (ltb n 10)) [
  | inl small ↦ rw small (scan-small_digit n rest (ltb→lt _ _ small))
  | inr big ↦
      rw big
        (scan-digits_from fuel (n / 10) ((b'0' + n % 10) ∷ rest) (ground arith) ∙ scan-digit n rest)
]

-- Digits begin with a digit.
digits_from-cons :
    (fuel n : ℕ) (rest : Bytes)
    → (c : ℕ) × (s : Bytes) × (digits_from fuel n rest ≡ c ∷ s) × (b'0' ≤ c) × (c ≤ b'9')
unfolding digits_from
digits_from-cons zero n rest = (b'0' + n % 10, rest, refl, omega arith, omega arith)
digits_from-cons (suc fuel) n rest = elim (Bool-cases (ltb n 10)) [
  | inl small ↦ (b'0' + n % 10, rest, rw small, omega arith, omega arith)
  | inr big ↦ rw big (digits_from-cons fuel (n / 10) ((b'0' + n % 10) ∷ rest))
]

parse_uint-format_uint : (n : ℕ) → n < two64 → parse_uint (format_uint n) ≡ some n
unfolding parse_uint format_uint
parse_uint-format_uint n h =
    let (c, s, e, low, high) = digits_from-cons n n [] in
    let scanned : scan_digits (c ∷ s) 0 ≡ some n =
      ap (λ t. scan_digits t 0) (sym e) ∙ scan-digits_from n n [] (omega arith) in
    ap parse_uint e ∙ ap fits scanned ∙ ground arith

-- A text that begins with a digit has no sign.
parse_int-unsigned : (c : ℕ) (s : Bytes) → b'0' ≤ c → parse_int (c ∷ s) ≡ parse_signed false (c ∷ s)
unfolding parse_int
parse_int-unsigned c s h = ground arith

parse_signed_lem :
    (negative : Bool) (n : ℕ)
    → n < two64
    → parse_signed negative (format_uint n) ≡ with_sign negative n
unfolding parse_signed
parse_signed_lem negative n h = ap (signed_value negative) (parse_uint-format_uint n h)

-- ParseInt reads back what FormatInt prints, for every int64.
pub parse_int-format_int : (z : ℤ) → IsInt64 z → parse_int (format_int z) ≡ some z
unfolding format_int with_sign
parse_int-format_int (pos n) h =
    let (c, s, e, low, high) = digits_from-cons n n [] in
    let text : format_uint n ≡ c ∷ s = unfold format_uint in e in
    (rw text (parse_int-unsigned c s low) ∙ ap (parse_signed false) (sym text))
    ∙ parse_signed_lem false n (omega arith)
    ∙ ground arith
parse_int-format_int (negsuc n) h =
    minus (format_uint (suc n)) ∙ parse_signed_lem true (suc n) (omega arith) ∙ ground arith
  where
    minus : (s : Bytes) → parse_int (b'-' ∷ s) ≡ parse_signed true s
    minus s = unfold parse_int in refl

module _ (P : ℕ → Type 0) (digit : (c : ℕ) → b'0' ≤ c → c ≤ b'9' → P c) (sign : P b'-') where
  digits_from-All : (fuel n : ℕ) (rest : Bytes) → All P rest → All P (digits_from fuel n rest)
  unfolding digits_from
  digits_from-All zero n rest h = (digit _ (omega arith) (omega arith), h)
  digits_from-All (suc fuel) n rest h =
      let last : P (b'0' + n % 10) = digit _ (omega arith) (omega arith) in
      elim (Bool-cases (ltb n 10)) [
        | inl small ↦ rw small (last, h)
        | inr big ↦ rw big (digits_from-All fuel (n / 10) ((b'0' + n % 10) ∷ rest) (last, h))
      ]

  -- What holds of the digits and of the sign holds of every byte of a printed number.
  pub format_int-All : (z : ℤ) → All P (format_int z)
  unfolding format_int format_uint
  format_int-All (pos n) = digits_from-All n n [] tt
  format_int-All (negsuc n) = (sign, digits_from-All (suc n) (suc n) [] tt)
