-- ===== src/Common/Time.antt =====
-- Go's time.Time and time.Duration, in nanoseconds.
-- An instant counts from Go's zero time (January 1 of the year 1), so `IsZero` is `t == 0`.
-- A clock reading never precedes the zero time, and a duration is not negative: `t.Add(-d)` that
-- would fall before the zero time is the zero time here, before which there is no instant.
use Prim.Native.Nat.{ℕ, ◌-◌, ◌≤◌, min}
use native.Mathlib.Omega.{arith}

abbrev pub Instant : Type 0
Instant = ℕ

abbrev pub max_duration : ℕ
max_duration = 9223372036854775807

-- now.Sub(t): saturated at the largest duration; a negative difference reads as 0, which is on
-- the same side of every test `now.Sub(t) > d` with a duration d that is not negative.
abbrev pub since : Instant → Instant → ℕ
since now t = min (now - t) max_duration

pub since-le : (now t : Instant) → since now t ≤ now - t
since-le now t = omega arith
