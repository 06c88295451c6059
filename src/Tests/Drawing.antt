-- ===== src/Tests/Drawing.antt =====
-- BookingTimeline.jsx and BookingBlock.jsx
use gbc_smart_management.Base.{ℕ, ◌≡◌, refl, arith, true, false, Bool, All, codes, decimal}
use gbc_smart_management.Timeline.{duration_to_pixels}
use gbc_smart_management.Drawing.{row_of}
use gbc_smart_management.Drawing.Durations.{
  duration_text, text_of, format_duration, tenths_text, tenths_of_hour,
}
use gbc_smart_management.Drawing.Placement
use gbc_smart_management.Drawing.Placement.{IsClear}
use gbc_smart_management.Drawing.Clock
use gbc_smart_management.Drawing.Clock.{
  mount_clock, sync_clock, ms_until_next_minute, timeout_rings, idle, then_tick, waits, times_out,
  IsFresh,
}
use gbc_smart_management.Blocks.{Block}
use gbc_smart_management.Tests.Data.{zone, ten, bookings}
use gbc_smart_management.Tests.Tv.{first}

abbrev up : ℕ → Bool
up ms = true

-- Two hours less a minute are shown as two hours.
almost_two_hours : duration_text up 7140000 ≡ codes "2h"
unfolding duration_text text_of format_duration tenths_text tenths_of_hour decimal
almost_two_hours = refl

row_of-IsClear_example :
    let r = row_of up zone ten 10 24 ten bookings first in
    All (λ u. All (IsClear up zone ten 10 u) r.blocks) r.buttons
unfolding duration_to_pixels
row_of-IsClear_example =
    Placement.row_of-IsClear up zone ten 10 24 ten bookings first (omega arith)
      ((λ e. omega (arith, e)), ((λ e. omega (arith, e)), tt)) (omega arith, (omega arith, tt))

clock_runs-IsFresh_example : IsFresh (timeout_rings (record (mount_clock 90000) { now = 120000 }))
unfolding mount_clock sync_clock ms_until_next_minute
clock_runs-IsFresh_example =
    Clock.clock_runs-IsFresh 90000
      (then_tick (then_tick idle (waits 120000 (omega arith) (omega arith) tt)) (times_out refl))

abbrev shut : Block
shut = record { is_updating = false; show_modal = true }
