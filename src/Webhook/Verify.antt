-- ===== src/Webhook/Verify.antt =====
-- The correctness of the signature check: what it accepts is what sign makes, within the tolerance.
use walletd_go.Base.{
  ℕ, zero, suc, ◌+◌, ◌^◌, ◌≤◌, ◌<◌, false, not, ◌||◌, Option, none, some, List, [], ◌∷◌, ◌++◌, All,
  drop, if◌then◌else◌, ℤ, pos, negsuc, pos_part, neg_part, ltb_ℤ, ◌≤ℤ◌, ◌+ℤ◌, ◌-ℤ◌, +ℤ_parts,
  IsInt64, wrap64, Bytes, codes, beq, beq→eq, beq_refl, ◌≡◌, ◌≢◌, refl, sym, ap, ◌∙◌, inl, inr,
  true-ne-false, Bool-cases, arith,
}
use walletd_go.Text.Decimal.{format_int, parse_int, parse_int-format_int, format_int-All}
use walletd_go.Webhook.Hex.{hex_encode, hex_decode, hex_decode-hex_encode, hex_encode-commaless}
use walletd_go.Webhook.Split.{split, has_prefix, split_once}
use walletd_go.Webhook.Clock.{unix, negate, outside}
use walletd_go.Webhook.Signature.{
  stale, sign, compare_at, check_parts, check_split, verify_signature_at, verify_signature,
}

above_comma : (n : ℕ) (s : Bytes) → 45 ≤ n → All (λ c. n ≤ c) s → All (λ c. c ≢ b',') s
above_comma n [] h hs = tt
above_comma n (c ∷ s) h (hc, hs) = (omega arith, above_comma n s h hs)

module _ (hmac : Bytes → Bytes → Bytes) where
  -- The header that sign makes has two parts.
  pub sign-split :
      (secret body : Bytes) (seconds : ℤ)
      → All (λ b. b < 256) (hmac secret (format_int seconds ++ (codes "." ++ body)))
      → split b',' (sign hmac secret seconds body)
        ≡ (codes "t=" ++ format_int seconds)
          ∷ (codes "v1=" ++ hex_encode (hmac secret (format_int seconds ++ (codes "." ++ body))))
          ∷ []
  unfolding sign
  sign-split secret body seconds bytes =
      split_once b',' (codes "t=" ++ format_int seconds)
        (codes "v1=" ++ hex_encode (hmac secret (format_int seconds ++ (codes "." ++ body))))
        (
          omega arith,
          (
            omega arith,
            format_int-All (λ c. c ≢ b',') (λ c low high. omega arith) (omega arith) seconds,
          ),
        )
        (
          omega arith,
          (
            omega arith,
            (omega arith, above_comma 48 _ (omega arith) (hex_encode-commaless _ bytes)),
          ),
        )

  compare_at-sign :
      (secret body : Bytes) (tolerance now seconds : ℤ)
      → compare_at hmac (sign hmac secret seconds body) body secret tolerance now seconds
        ≡ (if outside tolerance now (unix seconds) then some stale else none)
  unfolding compare_at
  compare_at-sign secret body tolerance now seconds =
      rw (beq_refl (sign hmac secret seconds body)) refl

  check_split-sign :
      (header secret body ts digest : Bytes) (tolerance now seconds : ℤ) (value : Bytes)
      → parse_int ts ≡ some seconds
      → hex_decode digest ≡ some value
      → check_split hmac header body secret tolerance now
          ((codes "t=" ++ ts) ∷ (codes "v1=" ++ digest) ∷ [])
        ≡ compare_at hmac header body secret tolerance now seconds
  unfolding check_split has_prefix check_parts
  check_split-sign header secret body ts digest tolerance now seconds value et ed = rw (et, ed) refl

-- The header that sign makes for a secret, a time and a body passes every check with the same secret and
-- body but that of the time, which the test `outside` of the code decides.
pub verify_signature_at-sign :
    (hmac : Bytes → Bytes → Bytes) (secret body : Bytes) (tolerance now seconds : ℤ)
    → ((key message : Bytes) → All (λ b. b < 256) (hmac key message))
    → IsInt64 seconds
    → verify_signature_at hmac (sign hmac secret seconds body) body secret tolerance now
      ≡ (if outside tolerance now (unix seconds) then some stale else none)
unfolding verify_signature_at
verify_signature_at-sign hmac secret body tolerance now seconds bytes h =
    let digest = hmac secret (format_int seconds ++ (codes "." ++ body)) in
    ap (check_split hmac (sign hmac secret seconds body) body secret tolerance now) (
      sign-split hmac secret body seconds
        (bytes secret (format_int seconds ++ (codes "." ++ body))))
    ∙ check_split-sign hmac (sign hmac secret seconds body) secret body (format_int seconds)
        (hex_encode digest) tolerance now seconds digest (parse_int-format_int seconds h)
        (hex_decode-hex_encode digest (bytes secret (format_int seconds ++ (codes "." ++ body))))
    ∙ compare_at-sign hmac secret body tolerance now seconds

module _ (hmac : Bytes → Bytes → Bytes) (header body secret : Bytes) (tolerance now : ℤ) where
  -- What an accepted header is.
  abbrev Genuine : Type 0
  Genuine =
      (seconds : ℤ) × (header ≡ sign hmac secret seconds body)
      × (outside tolerance now (unix seconds) ≡ false)

  compare_at-Genuine :
      (seconds : ℤ) → compare_at hmac header body secret tolerance now seconds ≡ none → Genuine
  unfolding compare_at
  compare_at-Genuine seconds h = elim (Bool-cases (outside tolerance now (unix seconds))) [
    | inl old ↦ absurd (ground arith)
    | inr fresh ↦ elim (Bool-cases (beq (sign hmac secret seconds body) header)) [
      | inl same ↦ (seconds, sym (beq→eq _ _ same), fresh)
      | inr other ↦ absurd (ground arith)
    ]
  ]

  check_parts-Genuine :
      (seconds : Option ℤ) (digest : Option Bytes)
      → check_parts hmac header body secret tolerance now seconds digest ≡ none
      → Genuine
  unfolding check_parts
  check_parts-Genuine none digest h = absurd cc
  check_parts-Genuine (some seconds) none h = absurd cc
  check_parts-Genuine (some seconds) (some digest) h = compare_at-Genuine seconds h

  check_split-Genuine :
      (parts : List Bytes)
      → check_split hmac header body secret tolerance now parts ≡ none
      → Genuine
  unfolding check_split
  check_split-Genuine [] h = absurd cc
  check_split-Genuine (first ∷ []) h = absurd cc
  check_split-Genuine (first ∷ second ∷ []) h =
      elim (Bool-cases
        (not (has_prefix first (codes "t=")) || not (has_prefix second (codes "v1=")))) [
          | inl bad ↦ absurd (ground arith)
          | inr good ↦
              check_parts-Genuine (parse_int (drop 2 first)) (hex_decode (drop 3 second))
                (ground arith)
        ]
  check_split-Genuine (first ∷ second ∷ third ∷ more) h = absurd cc

pub negate-parts :
    (t : ℕ) → t < 2 ^ 63 → (pos_part (negate (pos t)) ≡ 0) × (neg_part (negate (pos t)) ≡ t)
unfolding negate wrap64 ◌-ℤ◌
negate-parts zero h = (ground arith, ground arith)
negate-parts (suc t) h = (ground arith, ground arith)

-- The tolerance without its sign.
pub magnitude :
    (d : ℤ)
    → pos_part d + neg_part d < 2 ^ 63
    → (if ltb_ℤ d (pos 0) then negate d else d) ≡ pos (pos_part d + neg_part d)
unfolding negate wrap64 ◌-ℤ◌
magnitude (pos n) h = ground arith
magnitude (negsuc n) h = ground arith

inside :
    (t : ℕ) (now at : ℤ)
    → t < 2 ^ 63
    → outside (pos t) now at ≡ false
    → (now ≤ℤ at +ℤ pos t) × (at ≤ℤ now +ℤ pos t)
unfolding outside
inside t now at h fresh =
    let (none_up, down) = negate-parts t h in
    let before = +ℤ_parts now (negate (pos t)) in
    let after = +ℤ_parts now (pos t) in
    let shifted = +ℤ_parts at (pos t) in (ground arith, ground arith)

-- An accepted header is the header that sign makes for the same secret and body, which is not empty, and
-- the time that the header names; that time is at most the tolerance, whichever its sign, before or after
-- the present.
pub verify_signature_sound :
    (hmac : Bytes → Bytes → Bytes) (header body secret : Bytes) (tolerance now : ℤ)
    → pos_part tolerance + neg_part tolerance < 2 ^ 63
    → verify_signature hmac header body secret tolerance now ≡ none
    → (secret ≢ [])
      × (seconds : ℤ) × (header ≡ sign hmac secret seconds body)
      × (now ≤ℤ unix seconds +ℤ pos (pos_part tolerance + neg_part tolerance))
      × (unix seconds ≤ℤ now +ℤ pos (pos_part tolerance + neg_part tolerance))
unfolding verify_signature verify_signature_at beq
verify_signature_sound hmac header body secret tolerance now h accepted =
    elim (Bool-cases (beq secret [])) [
      | inl empty ↦ absurd (ground arith)
      | inr some_secret ↦
          let t = pos_part tolerance + neg_part tolerance in
          let checked : check_split hmac header body secret (pos t) now (split b',' header) ≡ none =
            ap (λ d. check_split hmac header body secret d now (split b',' header))
              (sym (magnitude tolerance h))
            ∙ unguarded some_secret in
          let (seconds, signed, fresh) =
            check_split-Genuine hmac header body secret (pos t) now (split b',' header) checked in
          let (early, late) = inside t now (unix seconds) h fresh in
          (
            λ e. true-ne-false (sym (ap (λ s. beq s []) e) ∙ some_secret),
            seconds,
            signed,
            early,
            late,
          )
    ]
  where
    unguarded :
        beq secret [] ≡ false
        → check_split hmac header body secret
            (if ltb_ℤ tolerance (pos 0) then negate tolerance else tolerance)
            now
            (split b',' header)
          ≡ none
    unguarded e = ground arith
