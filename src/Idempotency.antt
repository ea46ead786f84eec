-- ===== src/Idempotency.antt =====
-- idempotency.go: the key of a money-moving call and its check. A key is a string of bytes.
pub mod Printable
use walletd_go.Base.{
  ℕ, ◌≤◌, Bool, true, false, not, ◌||◌, Option, none, some, List, [], ◌∷◌, ltb, if◌then◌else◌,
  Bytes, beq, length, ◌≡◌, inl, inr, Bool-cases,
}
use walletd_go.Errors.Sentinel.{Sentinel}
use walletd_go.Errors.Chain.{Err}
use walletd_go.Text.Utf8.{runes}

abbrev pub IdempotencyKey : Type 0
IdempotencyKey = Bytes

-- maxIdempotencyKeyLen
abbrev pub max_idempotency_key_len : ℕ
max_idempotency_key_len = 200

abbrev pub invalid_key : Err
invalid_key = Err.wrap (Err.sentinel Sentinel.invalid_request)

-- The loop over the runes of a key: the first one that is not printable ASCII ends it.
unfoldable pub check_runes : List ℕ → Option Err
check_runes [] = none
check_runes (r ∷ rs) =
    let rest = check_runes rs in if ltb r 0x20 || ltb 0x7e r then some invalid_key else rest

-- (k IdempotencyKey) validate; `none` is a nil error.
unfoldable pub validate : IdempotencyKey → Option Err
unfolding check_runes
validate k =
    if beq k []
    then some invalid_key
    else if ltb max_idempotency_key_len (length k)
    then some invalid_key
    else check_runes (runes k)

-- (k IdempotencyKey) String
unfoldable pub key_text : IdempotencyKey → Bytes
key_text k = k

-- NewIdempotencyKey; `new_string` is `uuid.NewString` of google/uuid.
unfoldable pub new_idempotency_key : {W : Type 0} → (W → Bytes × W) → W → IdempotencyKey × W
new_idempotency_key new_string w = new_string w

-- A key that Validate accepts is not empty.
pub validate-nonempty : (k : IdempotencyKey) → validate k ≡ none → beq k [] ≡ false
unfolding validate
validate-nonempty k valid = elim (Bool-cases (beq k [])) [
  | inl empty ↦ let refused : some invalid_key ≡ none = rw empty at valid in absurd cc
  | inr e ↦ e
]
