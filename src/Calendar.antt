-- ===== src/Calendar.antt =====
-- What the frontend uses of JavaScript's `Date`: local clock readings of a timestamp. A timestamp is
-- a number of milliseconds since the epoch, and the local zone is a fixed distance `zone` to UTC,
-- in milliseconds modulo a day (Sri Lanka keeps UTC+5:30 the whole year). Dates before the epoch and
-- daylight saving are not modelled: subtraction stops at 0.
use gbc_smart_management.Base.{ℕ, ◌+◌, ◌-◌, ◌*◌, ◌/◌, ◌%◌}

abbrev pub minute_ms : ℕ
minute_ms = 60000

abbrev pub hour_ms : ℕ
hour_ms = 3600000

abbrev pub day_ms : ℕ
day_ms = 86400000

-- `d.getHours()`
abbrev pub get_hours : ℕ → ℕ → ℕ
get_hours zone t = (t + zone) % 86400000 / 3600000

-- `d.getMinutes()`
abbrev pub get_minutes : ℕ → ℕ → ℕ
get_minutes zone t = (t + zone) % 3600000 / 60000

-- `d.setHours(h, m, 0, 0)`: hours and minutes of the local day that holds `t`.
abbrev pub set_hours : ℕ → ℕ → ℕ → ℕ → ℕ
set_hours zone t h m = t - (t + zone) % 86400000 + h * 3600000 + m * 60000

-- The timestamp of the first whole minute at or before `t`, on the local clock.
abbrev pub whole_minute : ℕ → ℕ → ℕ
whole_minute zone t = t - (t + zone) % 60000
