-- ===== src/Countdown.antt =====
-- frontend/src/pages/TvDisplay.jsx: the helper functions, which show the time that remains.
pub mod Clock
use gbc_smart_management.Base.{
  ℕ, ◌+◌, ◌-◌, ◌/◌, ◌%◌, ◌==◌, ltb, if◌then◌else◌, ◌∷◌, ◌++◌, Text, codes, two_digits, decimal, ℤ,
  pos, negsuc, pos_part, ◌+ℤ◌, ◌-ℤ◌,
}
use gbc_smart_management.Calendar.{get_hours, get_minutes}
use gbc_smart_management.Timeline.{hour_12, is_am}

-- The countdown of a number of seconds.
unfoldable pub clock_text : ℕ → Text
clock_text total_seconds =
    two_digits (total_seconds / 3600)
    ++ b':' ∷ two_digits (total_seconds % 3600 / 60)
    ++ b':' ∷ two_digits (total_seconds % 60)

-- `formatTimeRemaining`
unfoldable pub format_time_remaining : ℕ → ℤ → ℕ → Text
format_time_remaining start duration now =
    let remaining_ms = pos_part ((pos start +ℤ duration) -ℤ pos now) in
    if remaining_ms == 0 then codes "00:00:00" else clock_text (remaining_ms / 1000)

-- `toLocaleTimeString` of the locale en-US, with a numeric hour and two digits for the minute.
unfoldable pub locale_time : ℕ → ℕ → Text
locale_time zone t =
    decimal (hour_12 (get_hours zone t))
    ++ b':' ∷ two_digits (get_minutes zone t)
    ++ (if is_am (get_hours zone t) then codes " AM" else codes " PM")

-- `formatTimeRange`; a session that would end before the epoch ends there.
unfoldable pub format_time_range : ℕ → ℕ → ℤ → Text
format_time_range zone start duration =
    locale_time zone start ++ codes " - " ++ locale_time zone (pos_part (pos start +ℤ duration))

-- A percentage, `part * 100 / whole`, which the code computes in floating point.
pub record Percent : Type 0 where
  pub part : ℕ
  pub whole : ℕ

-- The ratio of two differences, cut to the range from 0 to 1.
unfoldable pub clamp_ratio : ℕ → ℕ → Percent
clamp_ratio elapsed duration =
    if ltb duration elapsed
    then record { part = duration; whole = duration }
    else record { part = elapsed; whole = duration }

-- `getProgress`
unfoldable pub get_progress : ℕ → ℤ → ℕ → Percent
get_progress start (pos duration) now =
    if duration == 0 then record { part = 0; whole = 1 } else clamp_ratio (now - start) duration
get_progress start (negsuc d) now = clamp_ratio (start - now) (d + 1)
