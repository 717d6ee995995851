-- ===== src/Service/Time.antt =====
-- Python's `datetime`, as the stores and roles use it: an instant in microseconds after the epoch,
-- and whether the value has a UTC offset.
use aep_python.Common.{ℕ, ◌/◌, Bool, nat_eq, string_eq, pair_eq}

pub record DateTime : Type 0 where
  pub micros : ℕ
  pub aware : Bool

-- `int(value.timestamp())`
abbrev pub timestamp : DateTime → ℕ
timestamp t = t.micros / 1_000_000

-- `timedelta(hours=1)`
abbrev pub hour : ℕ
hour = 3_600_000_000
