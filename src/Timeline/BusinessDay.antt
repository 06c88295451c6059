-- ===== src/Timeline/BusinessDay.antt =====
-- The business day of `getTimelineStartOfDay`.
use gbc_smart_management.Base.{ℕ, ◌+◌, ◌*◌, ◌%◌, ◌≤◌, ◌<◌, ◌≡◌, ◌↔◌, arith}
use gbc_smart_management.Calendar.{day_ms}
use gbc_smart_management.Timeline.{start_of_day}

module _ (zone base open_hour : ℕ) (late : 172800000 ≤ base) (hour : open_hour < 24) where
  start_of_day_clock : (start_of_day zone base open_hour + zone) % 86400000 ≡ open_hour * 3600000
  unfolding start_of_day
  start_of_day_clock = ground arith

  -- From two days after the epoch on, and for an opening hour below 24, the start of the business
  -- day lies at or before the base time and less than a day before it, and the local clock shows the
  -- opening hour there.
  pub start_of_day_bounds :
      (start_of_day zone base open_hour ≤ base)
      × (base < start_of_day zone base open_hour + day_ms)
      × ((start_of_day zone base open_hour + zone) % 86400000 ≡ open_hour * 3600000)
  unfolding start_of_day start_of_day_clock
  start_of_day_bounds = (ground arith, ground arith, start_of_day_clock)

  -- From two days after the epoch on, and for an opening hour below 24: a time is the start of the business
  -- day of the base time exactly where it is at or before the base time and less than a day before it,
  -- and the local clock shows the opening hour.
  pub start_of_day_iff :
      (t : ℕ)
      → (t ≡ start_of_day zone base open_hour)
        ↔ ((t ≤ base) × (base < t + day_ms) × ((t + zone) % 86400000 ≡ open_hour * 3600000))
  start_of_day_iff t = (λ e. rw e start_of_day_bounds, λ h. omega (arith, start_of_day_bounds, h))

-- For an opening hour below 24 and times two days after the epoch or later, every time from the start
-- of a business day to a day later, which is excluded, has that same start.
pub start_of_day_unique :
    (zone base open_hour t : ℕ)
    → 172800000 ≤ base
    → open_hour < 24
    → 172800000 ≤ t
    → start_of_day zone base open_hour ≤ t
    → t < start_of_day zone base open_hour + day_ms
    → start_of_day zone t open_hour ≡ start_of_day zone base open_hour
start_of_day_unique zone base open_hour t h1 h2 h3 h4 h5 = omega (
  arith,
  start_of_day_bounds zone base open_hour h1 h2,
  start_of_day_bounds zone t open_hour h3 h2,
)
