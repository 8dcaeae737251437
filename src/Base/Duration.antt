-- ===== src/Base/Duration.antt =====
-- Go's `time.Duration`, an `int64` of nanoseconds, with the operations that the program uses.
-- A `time.Time` is the integer of its nanoseconds since the epoch.
use notebook_operator.Base.Tests.{if◌then◌else◌}
use notebook_operator.Base.Int.{ℤ, pos, negsuc, ltb_ℤ, ◌-ℤ◌, ◌*ℤ◌, wrap64}
use Prim.Native.Nat.{◌-◌, ◌^◌}

abbrev pub Duration : Type 0
Duration = ℤ

abbrev pub second : Duration
second = pos 1000000000

abbrev pub minute : Duration
minute = pos 60000000000

abbrev pub hour : Duration
hour = pos 3600000000000

abbrev pub max_duration : Duration
max_duration = pos (2 ^ 63 - 1)

abbrev pub min_duration : Duration
min_duration = negsuc (2 ^ 63 - 1)

-- `a * b` of two durations.
unfoldable pub times : Duration → Duration → Duration
unfolding wrap64 ◌*ℤ◌
times a b = wrap64 (a *ℤ b)

-- `t.Sub(u)` stops at the ends of the range; `time.Since(u)` is `now.Sub(u)` and `time.Until(u)` is
-- `u.Sub(now)`.
unfoldable pub sub : ℤ → ℤ → Duration
unfolding ◌-ℤ◌
sub t u =
    let d = t -ℤ u in
    if ltb_ℤ max_duration d then max_duration else if ltb_ℤ d min_duration then min_duration else d
