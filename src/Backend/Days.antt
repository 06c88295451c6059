-- ===== src/Backend/Days.antt =====
-- backend/pkg/timeutil/time.go: the operational day, which runs from the opening on its date to the
-- closing on the next, on the venue's clock, which is at a fixed offset. Moments are milliseconds, and a
-- date is the number of its day.
use gbc_smart_management.Base.{
  ℕ, ◌+◌, ◌-◌, ◌*◌, ◌/◌, List, [], ◌∷◌, Option, none, some, Text, codes, split, number,
}

-- The settings that the service reads, `domain.VenueConfig`.
pub record VenueConfig : Type 0 where
  pub venue_start : Text
  pub venue_close : Text

-- `strconv.Atoi`, whose error is ignored, of the parts of a time; another text is read as the default.
unfoldable pub atoi : Text → ℕ
atoi t = elim (number t) [ none ↦ 0 | some n ↦ n ]

unfoldable pub clock_ms : ℕ → List Text → ℕ
clock_ms fallback [] = fallback
clock_ms fallback (h ∷ []) = fallback
clock_ms fallback (h ∷ m ∷ more) = atoi h * 3600000 + atoi m * 60000

unfoldable pub start_ms : VenueConfig → ℕ
start_ms c = clock_ms (9 * 3600000) (split b':' c.venue_start)

unfoldable pub close_ms : VenueConfig → ℕ
close_ms c = clock_ms (6 * 3600000) (split b':' c.venue_close)

abbrev pub default_config : VenueConfig
default_config = record { venue_start = codes "09:00"; venue_close = codes "06:00" }

unfoldable pub config_or_default : Option VenueConfig → VenueConfig
config_or_default none = default_config
config_or_default (some c) = c

-- `GetOperationalDayBounds`: a date is the number of its day.
unfoldable pub day_start : ℕ → ℕ → VenueConfig → ℕ
day_start zone date c = date * 86400000 + start_ms c - zone

unfoldable pub day_end : ℕ → ℕ → VenueConfig → ℕ
day_end zone date c = (date + 1) * 86400000 + close_ms c - zone

-- `TodayVenueString`
unfoldable pub venue_today : ℕ → VenueConfig → ℕ → ℕ
venue_today zone c now = (now + zone - close_ms c) / 86400000
