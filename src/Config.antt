-- ===== src/Config.antt =====
-- The settings that the server sends (api/configs.js), and what CreateBookingModal.jsx and
-- BookingTimeline.jsx read from them. A missing setting is the empty text or the rate 0.
use gbc_smart_management.Base.{
  ℕ, ◌+◌, ◌==◌, ltb, if◌then◌else◌, Option, none, some, Text, is_empty, split, parse_int,
  first_or_empty,
}

-- The hourly rate in hundredths.
pub record GlobalConfig : Type 0 where
  pub hourly_rate : ℕ
  pub venue_start_time : Text
  pub venue_close_time : Text

-- `parseInt(time.split(':')[0], 10)`, or `fallback` for a missing time; `none` is NaN.
unfoldable pub hour_of : Text → ℕ → Option ℕ
hour_of time fallback =
    if is_empty time then some fallback else parse_int (first_or_empty (split b':' time))

-- `openHour`
unfoldable pub open_hour_of : Option GlobalConfig → Option ℕ
open_hour_of none = some 10
open_hour_of (some c) = hour_of c.venue_start_time 10

-- `HOURLY_RATE`
unfoldable pub hourly_rate_of : Option GlobalConfig → ℕ
hourly_rate_of none = 1500
hourly_rate_of (some c) = if c.hourly_rate == 0 then 1500 else c.hourly_rate

-- `baseCloseHour`, of `parsedCloseHour`
unfoldable pub base_close_hour : ℕ → ℕ → ℕ
base_close_hour open_hour parsed =
    if parsed == 0 then 24 else if ltb parsed open_hour then parsed + 24 else parsed

unfoldable pub close_hour_of : Option GlobalConfig → ℕ → Option ℕ
close_hour_of none open_hour = some (base_close_hour open_hour 24)
close_hour_of (some c) open_hour = elim (hour_of c.venue_close_time 24) [
  | none ↦ none
  | some parsed ↦ some (base_close_hour open_hour parsed)
]
