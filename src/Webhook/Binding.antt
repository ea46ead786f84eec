-- ===== src/Webhook/Binding.antt =====
-- What a signature header is bound to: one timestamp, and one HMAC-SHA256.
use walletd_go.Base.{
  ◌+◌, ◌^◌, ◌<◌, none, some, [], ◌∷◌, ◌++◌, All, ℤ, pos_part, neg_part, Bytes, codes, ◌≡◌, sym, ap,
  ◌∙◌,
}
use walletd_go.Text.Decimal.{format_int}
use walletd_go.Webhook.Hex.{hex_encode, hex_decode, hex_decode-hex_encode}
use walletd_go.Webhook.Split.{split}
use walletd_go.Webhook.Signature.{sign, verify_signature}
use walletd_go.Webhook.Verify.{sign-split, verify_signature_sound}

some-injective : {a b : Bytes} → some a ≡ some b → a ≡ b
some-injective e = cc

-- hex is read back, so two texts with one encoding are one.
hex_encode-injective :
    (s t : Bytes)
    → All (λ b. b < 256) s
    → All (λ b. b < 256) t
    → hex_encode s ≡ hex_encode t
    → s ≡ t
hex_encode-injective s t hs ht e =
    some-injective (sym (hex_decode-hex_encode s hs) ∙ ap hex_decode e ∙ hex_decode-hex_encode t ht)

-- The two parts of a header.
parts-injective :
    {a b c d : Bytes}
    → (codes "t=" ++ a) ∷ (codes "v1=" ++ b) ∷ [] ≡ (codes "t=" ++ c) ∷ (codes "v1=" ++ d) ∷ []
    → (a ≡ c) × (b ≡ d)
parts-injective e = (cc, cc)

module _ (hmac : Bytes → Bytes → Bytes)
    (bytes : (key message : Bytes) → All (λ b. b < 256) (hmac key message)) where
  -- Two headers that are the same text name the same time and carry the same digest.
  sign-injective :
      (secret secret' body body' : Bytes) (seconds seconds' : ℤ)
      → sign hmac secret seconds body ≡ sign hmac secret' seconds' body'
      → (format_int seconds ≡ format_int seconds')
        × (hmac secret (format_int seconds ++ (codes "." ++ body))
            ≡ hmac secret' (format_int seconds' ++ (codes "." ++ body')))
  sign-injective secret secret' body body' seconds seconds' e =
      let (times, digests) = parts-injective (
        sym (sign-split hmac secret body seconds (bytes _ _))
        ∙ ap (split b',') e
        ∙ sign-split hmac secret' body' seconds' (bytes _ _)) in
      (times, hex_encode-injective _ _ (bytes _ _) (bytes _ _) digests)

-- A header that was made for a body at some time and is accepted with another body, or another secret,
-- whatever the tolerance and the present, shows a collision of HMAC-SHA256: the two bodies behind that
-- same time have the same digest under the two secrets.
pub verify_signature_binds :
    (hmac : Bytes → Bytes → Bytes) (secret secret' body body' : Bytes) (seconds tolerance now : ℤ)
    → ((key message : Bytes) → All (λ b. b < 256) (hmac key message))
    → pos_part tolerance + neg_part tolerance < 2 ^ 63
    → verify_signature hmac (sign hmac secret seconds body) body' secret' tolerance now ≡ none
    → hmac secret (format_int seconds ++ (codes "." ++ body))
      ≡ hmac secret' (format_int seconds ++ (codes "." ++ body'))
verify_signature_binds hmac secret secret' body body' seconds tolerance now bytes h accepted =
    let (used, seconds', same, early, late) =
      verify_signature_sound hmac (sign hmac secret seconds body) body' secret' tolerance now h
        accepted in
    let (times, digests) =
      sign-injective hmac bytes secret secret' body body' seconds seconds' same in
    digests ∙ ap (λ t. hmac secret' (t ++ (codes "." ++ body'))) (sym times)
