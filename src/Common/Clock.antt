-- ===== src/Common/Clock.antt =====
-- Times: shared/kernel/timestamps.py. `utcnow()` is a naive UTC time, kept here as the number of
-- microseconds since the epoch, which is the resolution of `datetime`; a `timedelta` is a number of
-- microseconds too. Each call of `utcnow()` is an argument of the function that makes it.
use Prim.Native.Nat.{ℕ, ◌-◌, ◌*◌, ◌/◌, ◌%◌}

-- One second, in microseconds.
abbrev pub second : ℕ
second = 1000000

-- `timedelta(seconds=n)`
abbrev pub seconds : ℕ → ℕ
seconds n = n * second

-- `moment.replace(microsecond=0)`
abbrev pub whole_second : ℕ → ℕ
whole_second t = t - t % second

-- `int(duration.total_seconds())` of a duration that is not negative.
abbrev pub total_seconds : ℕ → ℕ
total_seconds d = d / second
