-- ===== src/Webhook/Fresh.antt =====
-- VerifySignature of webhook.go on a header that sign made: the time decides, and how.
use walletd_go.Base.{
  ℕ, ◌+◌, ◌^◌, ◌<◌, true, false, ◌&&◌, none, some, [], ℤ, pos, pos_part, neg_part, leb_ℤ, ◌+ℤ◌,
  +ℤ_parts, IsInt64, Bytes, beq, beq→eq, ◌≡◌, ◌≢◌, refl, ◌∙◌, inl, inr, All, Bool-cases,
  if◌then◌else◌, not, arith, Bool,
}
use walletd_go.Webhook.Clock.{unix, negate, outside}
use walletd_go.Webhook.Signature.{stale, sign, verify_signature}
use walletd_go.Webhook.Verify.{negate-parts, magnitude, verify_signature_at-sign}

-- The code's test is the one on the two distances.
outside_lem :
    (t : ℕ) (now at : ℤ)
    → t < 2 ^ 63
    → outside (pos t) now at ≡ not (leb_ℤ now (at +ℤ pos t) && leb_ℤ at (now +ℤ pos t))
unfolding outside
outside_lem t now at h =
    let (none_up, down) = negate-parts t h in
    let before = +ℤ_parts now (negate (pos t)) in
    let after = +ℤ_parts now (pos t) in let shifted = +ℤ_parts at (pos t) in ground arith

-- The header that sign makes for a secret that is not empty, a time and a body is accepted with the same
-- secret and body exactly at the instants that lie at most the tolerance, whichever its sign, behind that
-- time or before it, and refused as stale at every other one, whatever HMAC-SHA256 computes, as long as it
-- computes bytes. The tolerance is not the least duration.
pub verify_signature-sign :
    (hmac : Bytes → Bytes → Bytes) (secret body : Bytes) (tolerance now seconds : ℤ)
    → ((key message : Bytes) → All (λ b. b < 256) (hmac key message))
    → secret ≢ []
    → IsInt64 seconds
    → pos_part tolerance + neg_part tolerance < 2 ^ 63
    → let width = pos (pos_part tolerance + neg_part tolerance) in
      verify_signature hmac (sign hmac secret seconds body) body secret tolerance now ≡ (
        if leb_ℤ now (unix seconds +ℤ width) && leb_ℤ (unix seconds) (now +ℤ width)
        then none
        else some stale)
unfolding verify_signature
verify_signature-sign hmac secret body tolerance now seconds bytes some_secret h small =
    elim (Bool-cases (beq secret [])) [
      | inl empty ↦ absurd (some_secret (beq→eq secret [] empty))
      | inr given ↦
          rw (given, magnitude tolerance small)
            (verify_signature_at-sign hmac secret body
                (pos (pos_part tolerance + neg_part tolerance)) now seconds bytes h
              ∙ rw (outside_lem (pos_part tolerance + neg_part tolerance) now (unix seconds) small)
                  (swapped (
                    leb_ℤ now (unix seconds +ℤ pos (pos_part tolerance + neg_part tolerance))
                    && leb_ℤ (unix seconds)
                        (now +ℤ pos (pos_part tolerance + neg_part tolerance)))))
    ]
  where
    swapped : (b : Bool) → (if not b then some stale else none) ≡ (if b then none else some stale)
    swapped true = refl
    swapped false = refl
