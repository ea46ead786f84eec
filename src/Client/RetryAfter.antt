-- ===== src/Client/RetryAfter.antt =====
-- parseRetryAfter of client.go.
use walletd_go.Base.{
  ℕ, ◌-◌, ◌*◌, Option, none, some, [], ◌∷◌, if◌then◌else◌, ℤ, pos, negsuc, ltb_ℤ, ◌-ℤ◌, wrap64,
  two63, Bytes,
}
use walletd_go.Text.Decimal.{parse_int}
use walletd_go.Text.Space.{trim_space}

abbrev pub second : ℕ
second = 1_000_000_000

-- `time.Until`: the difference, cut off at the range of a duration.
unfoldable pub until : ℤ → ℤ → ℤ
until when now =
    let d = when -ℤ now in
    if ltb_ℤ d (negsuc (two63 - 1))
    then negsuc (two63 - 1)
    else if ltb_ℤ (pos (two63 - 1)) d
    then pos (two63 - 1)
    else d

-- `time.Duration(secs) * time.Second` for a number that is not negative; a negative one is refused.
unfoldable pub from_seconds : ℤ → Option ℤ
from_seconds (pos secs) = some (wrap64 (pos (secs * second)))
from_seconds (negsuc n) = none

-- The form with an HTTP date.
unfoldable pub from_date : ℤ → Option ℤ → Option ℤ
unfolding until
from_date now none = none
from_date now (some when) = let d = until when now in some (if ltb_ℤ d (pos 0) then pos 0 else d)

-- The two forms: `Atoi` decides.
unfoldable pub by_form : (Bytes → Option ℤ) → ℤ → Bytes → Option ℤ → Option ℤ
unfolding from_seconds from_date
by_form parse_time now v (some secs) = from_seconds secs
by_form parse_time now v none = from_date now (parse_time v)

unfoldable pub parse_retry_after : (Bytes → Option ℤ) → ℤ → Bytes → Option ℤ
unfolding by_form
parse_retry_after parse_time now [] = none
parse_retry_after parse_time now (c ∷ v) =
    by_form parse_time now (c ∷ v) (parse_int (trim_space (c ∷ v)))
