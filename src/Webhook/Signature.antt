-- ===== src/Webhook/Signature.antt =====
-- sign, verifySignatureAt and VerifySignature of webhook.go.
use walletd_go.Base.{
  not, ◌||◌, Option, none, some, List, [], ◌∷◌, ◌++◌, drop, if◌then◌else◌, ℤ, pos, ltb_ℤ, Bytes,
  codes, beq,
}
use walletd_go.Text.Decimal.{format_int, parse_int}
use walletd_go.Webhook.Hex.{hex_encode, hex_decode}
use walletd_go.Webhook.Split.{split, has_prefix}
use walletd_go.Webhook.Clock.{unix, negate, outside}

-- The sentinel that an error of the verification wraps or is.
pub data SignatureError : Type 0 where
  malformed : SignatureError
  stale : SignatureError
  mismatch : SignatureError

-- DefaultTolerance, in nanoseconds
abbrev pub default_tolerance : ℤ
default_tolerance = pos 300_000_000_000

-- `hmac` is HMAC-SHA256 of a key and a message.
module _ (hmac : Bytes → Bytes → Bytes) where
  unfoldable pub sign : Bytes → ℤ → Bytes → Bytes
  sign secret seconds body =
      codes "t="
      ++ (format_int seconds
          ++ (codes ",v1=" ++ hex_encode (hmac secret (format_int seconds ++ (codes "." ++ body)))))

  -- The comparison behind the check of the time.
  unfoldable pub compare_at : Bytes → Bytes → Bytes → ℤ → ℤ → ℤ → Option SignatureError
  unfolding sign
  compare_at header body secret tolerance now seconds =
      if outside tolerance now (unix seconds)
      then some stale
      else if not (beq (sign secret seconds body) header)
      then some mismatch
      else none

  -- The timestamp and the digest of a header whose parts have their prefixes.
  unfoldable pub check_parts :
      Bytes → Bytes → Bytes → ℤ → ℤ → Option ℤ → Option Bytes → Option SignatureError
  unfolding compare_at
  check_parts header body secret tolerance now none digest = some malformed
  check_parts header body secret tolerance now (some seconds) none = some malformed
  check_parts header body secret tolerance now (some seconds) (some digest) =
      compare_at header body secret tolerance now seconds

  unfoldable pub check_split : Bytes → Bytes → Bytes → ℤ → ℤ → List Bytes → Option SignatureError
  unfolding check_parts
  check_split header body secret tolerance now [] = some malformed
  check_split header body secret tolerance now (first ∷ []) = some malformed
  check_split header body secret tolerance now (first ∷ second ∷ []) =
      if not (has_prefix first (codes "t=")) || not (has_prefix second (codes "v1="))
      then some malformed
      else check_parts header body secret tolerance now (parse_int (drop 2 first))
          (hex_decode (drop 3 second))
  check_split header body secret tolerance now (first ∷ second ∷ third ∷ more) = some malformed

  -- verifySignatureAt; `none` is a nil error.
  unfoldable pub verify_signature_at : Bytes → Bytes → Bytes → ℤ → ℤ → Option SignatureError
  unfolding check_split
  verify_signature_at header body secret tolerance now =
      check_split header body secret tolerance now (split b',' header)

  -- VerifySignature at the time `now`.
  unfoldable pub verify_signature : Bytes → Bytes → Bytes → ℤ → ℤ → Option SignatureError
  unfolding verify_signature_at
  verify_signature header body secret tolerance now =
      if beq secret []
      then some mismatch
      else verify_signature_at header body secret
          (if ltb_ℤ tolerance (pos 0) then negate tolerance else tolerance) now
