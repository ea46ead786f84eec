-- ===== src/Webhook/Clock.antt =====
-- The parts of package time that a signature's age needs. An instant is its number of nanoseconds since
-- the year 1, which is what the seconds and nanoseconds of a `time.Time` come to.
use walletd_go.Base.{suc, ◌-◌, ◌*◌, Bool, ◌||◌, ℤ, pos, negsuc, ◌+ℤ◌, ◌-ℤ◌, ltb_ℤ, wrap64}

-- A number of seconds in nanoseconds.
unfoldable pub in_nanos : ℤ → ℤ
in_nanos (pos n) = pos (n * 1_000_000_000)
in_nanos (negsuc n) = negsuc (suc n * 1_000_000_000 - 1)

-- `time.Unix(seconds, 0)`: the seconds since the year 1 are an int64 that wraps around.
unfoldable pub unix : ℤ → ℤ
unfolding in_nanos
unix seconds = in_nanos (wrap64 (seconds +ℤ pos 62_135_596_800))

-- `-d` on a duration: the least one has no opposite.
unfoldable pub negate : ℤ → ℤ
negate d = wrap64 (pos 0 -ℤ d)

-- `at.Before(now.Add(-tolerance)) || at.After(now.Add(tolerance))`
unfoldable pub outside : ℤ → ℤ → ℤ → Bool
unfolding negate
outside tolerance now at = ltb_ℤ at (now +ℤ negate tolerance) || ltb_ℤ (now +ℤ tolerance) at
