-- ===== src/Idempotency/Printable.antt =====
-- The check of a key, against what the contract says of it.
use walletd_go.Base.{
  ℕ, zero, suc, ◌≤◌, true, none, some, List, [], ◌∷◌, ◌≡◌, refl, ◌↔◌, ltb, Bytes, beq, length, drop,
  All, ltb→lt, sym, ◌∙◌, ◌⊎◌, eq_of_some-eq, arith, Bool-cases, inl, inr,
}
use walletd_go.Errors.Sentinel.{Sentinel, same_refl}
use walletd_go.Errors.Chain.{Err, is}
use walletd_go.Text.Utf8.{runes, runes_from, decode_rune, decode_rune-big, decode_rune-ascii}
use walletd_go.Idempotency.{
  IdempotencyKey, max_idempotency_key_len, invalid_key, check_runes, validate,
}

abbrev pub IsPrintable : ℕ → Type 0
IsPrintable b = (0x20 ≤ b) × (b ≤ 0x7e)

check_runes-cons :
    (r : ℕ) (rs : List ℕ) → check_runes (r ∷ rs) ≡ none → IsPrintable r × (check_runes rs ≡ none)
unfolding check_runes
check_runes-cons r rs e = (ground arith, ground arith)

check_runes_sound :
    (fuel : ℕ) (s : Bytes)
    → length s ≤ fuel
    → check_runes (runes_from fuel s) ≡ none
    → All IsPrintable s
unfolding runes_from
check_runes_sound fuel [] h e = tt
check_runes_sound zero (b ∷ s) h e = absurd (omega arith)
check_runes_sound (suc fuel) (b ∷ s) h e = elim (Bool-cases (ltb b 0x80)) [
  | inl ascii ↦
      let (printable, rest) =
        check_runes-cons b (runes_from fuel s)
          (rw (decode_rune-ascii b s (ltb→lt _ _ ascii)) at e) in
      (printable, check_runes_sound fuel s (omega arith) rest)
  | inr big ↦
      let high : 0x80 ≤ b = ground arith in
      let first =
        check_runes-cons (decode_rune b s).0 (runes_from fuel (drop (decode_rune b s).1 s)) e in
      absurd (omega (arith, decode_rune-big b s high))
]

check_runes_complete :
    (fuel : ℕ) (s : Bytes) → All IsPrintable s → check_runes (runes_from fuel s) ≡ none
unfolding check_runes runes_from
check_runes_complete zero s h = refl
check_runes_complete (suc fuel) [] h = refl
check_runes_complete (suc fuel) (b ∷ s) h =
    rw (decode_rune-ascii b s (omega arith)) (ground (arith, check_runes_complete fuel s h.1))

validate_parts :
    (k : IdempotencyKey)
    → validate k ≡ none
    → (1 ≤ length k)
      × (length k ≤ max_idempotency_key_len)
      × (check_runes (runes_from (length k) k) ≡ none)
unfolding validate runes beq
validate_parts [] e = cc
validate_parts (b ∷ s) e = (omega arith, ground arith, ground arith)

validate_passes :
    (k : IdempotencyKey)
    → 1 ≤ length k
    → length k ≤ max_idempotency_key_len
    → check_runes (runes_from (length k) k) ≡ none
    → validate k ≡ none
unfolding validate runes beq
validate_passes [] some_byte fits e = absurd (omega arith)
validate_passes (b ∷ s) some_byte fits e = ground arith

-- The check of a key passes exactly if the key has 1 to 200 bytes, all of them printable ASCII: the
-- loop over its runes accepts what a loop over its bytes accepts, for every string of bytes.
pub validate-eq_none :
    (k : IdempotencyKey)
    → (validate k ≡ none)
      ↔ ((1 ≤ length k) × (length k ≤ max_idempotency_key_len) × All IsPrintable k)
validate-eq_none k = (
  λ e.
      let (some_byte, fits, passed) = validate_parts k e in
      (some_byte, fits, check_runes_sound (length k) k (omega arith) passed),
  λ h. validate_passes k h.0 h.1 (check_runes_complete (length k) k h.2),
)

check_runes-cases : (rs : List ℕ) → (check_runes rs ≡ none) ⊎ (check_runes rs ≡ some invalid_key)
unfolding check_runes
check_runes-cases [] = inl refl
check_runes-cases (r ∷ rs) = ground (arith, check_runes-cases rs)

validate-cases : (k : IdempotencyKey) → (validate k ≡ none) ⊎ (validate k ≡ some invalid_key)
unfolding validate
validate-cases k = ground (arith, check_runes-cases (runes k))

-- A key that fails the check fails with an error that is `ErrInvalidRequest`.
pub validate-is_invalid :
    (k : IdempotencyKey) (e : Err) → validate k ≡ some e → is e Sentinel.invalid_request ≡ true
unfolding is
validate-is_invalid k e h = elim (validate-cases k) [
  | inl passed ↦ cc
  | inr refused ↦
      let same_error : e ≡ invalid_key = eq_of_some-eq (sym h ∙ refused) in
      rw same_error (same_refl Sentinel.invalid_request)
]
