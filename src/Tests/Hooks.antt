-- ===== src/Tests/Hooks.antt =====
-- A delivery, its event and a page of a catalog. A keyed sum that writes one byte stands for HMAC-SHA256.
use walletd_go.Base.{
  ◌+◌, ◌%◌, ◌<◌, none, some, [], ◌∷◌, ◌++◌, ap, All, length, length-append, if◌then◌else◌, ℤ, pos,
  ◌≤ℤ◌, leb_ℤ, ◌&&◌, ◌+ℤ◌, ◌-ℤ◌, wrap64, Bytes, codes, beq, ◌≡◌, ◌∙◌, ◌≢◌, refl, arith,
}
use walletd_go.Errors.Result.{ok}
use walletd_go.Text.Decimal.{format_int}
use walletd_go.Webhook.Clock.{unix, outside, negate, in_nanos}
use walletd_go.Webhook.Signature.{
  stale, sign, verify_signature_at, verify_signature, default_tolerance,
}
use walletd_go.Webhook.Verify.{verify_signature_at-sign, verify_signature_sound}
use walletd_go.Webhook.Fresh.{verify_signature-sign}
use walletd_go.Webhook.Binding.{verify_signature_binds}
use walletd_go.Webhook.Event.{Event, IsIdentified, parse_event, parse_event-IsIdentified}

abbrev sum : Bytes → Bytes → Bytes
sum key message = (length key + length message) % 256 ∷ []

sum-bytes : (key message : Bytes) → All (λ b. b < 256) (sum key message)
sum-bytes key message = (omega arith, tt)

-- An instant in 2025.
abbrev now : ℤ
now = unix (pos 1_750_000_000)

verify_signature-sign_example :
    verify_signature sum
      (sign sum (codes "whsec") (pos 1_750_000_000) (codes "{}"))
      (codes "{}")
      (codes "whsec")
      default_tolerance
      now
    ≡ (if leb_ℤ now (unix (pos 1_750_000_000) +ℤ default_tolerance)
          && leb_ℤ (unix (pos 1_750_000_000)) (now +ℤ default_tolerance)
        then none
        else some stale)
verify_signature-sign_example =
    verify_signature-sign sum (codes "whsec") (codes "{}") default_tolerance now (pos 1_750_000_000)
      sum-bytes (λ e. cc) (omega arith) (omega arith)

within :
    (if outside default_tolerance now (unix (pos 1_750_000_000)) then some stale else none) ≡ none
unfolding outside negate unix in_nanos wrap64 ◌+ℤ◌ ◌-ℤ◌
within = refl

genuine :
    verify_signature sum
      (sign sum (codes "whsec") (pos 1_750_000_000) (codes "{}"))
      (codes "{}")
      (codes "whsec")
      default_tolerance
      now
    ≡ none
unfolding verify_signature beq
genuine =
    verify_signature_at-sign sum (codes "whsec") (codes "{}") default_tolerance now
      (pos 1_750_000_000) sum-bytes (omega arith)
    ∙ within

verify_signature_sound_example :
    (codes "whsec" ≢ [])
    × (seconds : ℤ) × (sign sum (codes "whsec") (pos 1_750_000_000) (codes "{}")
        ≡ sign sum (codes "whsec") seconds (codes "{}"))
    × (now ≤ℤ unix seconds +ℤ default_tolerance)
    × (unix seconds ≤ℤ now +ℤ default_tolerance)
verify_signature_sound_example =
    verify_signature_sound sum (sign sum (codes "whsec") (pos 1_750_000_000) (codes "{}"))
      (codes "{}") (codes "whsec") default_tolerance now (omega arith) genuine

-- The sum has collisions: another body of the same length is accepted.
collision :
    sign sum (codes "whsec") (pos 1_750_000_000) (codes "{}")
    ≡ sign sum (codes "whsec") (pos 1_750_000_000) (codes "[]")
unfolding sign
collision =
    rw
      (
        length-append (format_int (pos 1_750_000_000)) (codes ".{}"),
        length-append (format_int (pos 1_750_000_000)) (codes ".[]"),
      )
      refl

replaced :
    verify_signature sum
      (sign sum (codes "whsec") (pos 1_750_000_000) (codes "{}"))
      (codes "[]")
      (codes "whsec")
      default_tolerance
      now
    ≡ none
unfolding verify_signature beq
replaced =
    ap (λ h. verify_signature_at sum h (codes "[]") (codes "whsec") default_tolerance now) collision
    ∙ verify_signature_at-sign sum (codes "whsec") (codes "[]") default_tolerance now
        (pos 1_750_000_000) sum-bytes (omega arith)
    ∙ within

verify_signature_binds_example :
    sum (codes "whsec") (format_int (pos 1_750_000_000) ++ (codes "." ++ codes "{}"))
    ≡ sum (codes "whsec") (format_int (pos 1_750_000_000) ++ (codes "." ++ codes "[]"))
verify_signature_binds_example =
    verify_signature_binds sum (codes "whsec") (codes "whsec") (codes "{}") (codes "[]")
      (pos 1_750_000_000) default_tolerance now sum-bytes (omega arith) replaced

abbrev event : Event
event = record {
  id = 7;
  kind = codes "topup.succeeded";
  tenant_id = 3;
  client_id = none;
  created_at = 0;
  objects = [];
}

parse_event-IsIdentified_example :
    (parse_event (λ body. ok event) (codes "{}") ≡ ok event
      → (ok event ≡ ok event) × IsIdentified event)
    × ((ok event ≡ ok event) × IsIdentified event
        → parse_event (λ body. ok event) (codes "{}") ≡ ok event)
parse_event-IsIdentified_example = parse_event-IsIdentified (λ body. ok event) (codes "{}") event
