-- ===== src/Timeline/Scale.antt =====
-- The scale of `timeToPixels` and `durationToPixels`.
use gbc_smart_management.Base.{
  ℕ, ◌+◌, ◌*◌, ◌/◌, ◌≤◌, ◌≢◌, arith, ==_false, pos, ◌+ℤ◌, ◌≤ℤ◌, floor_div, scale, sub_ℕ,
}
use gbc_smart_management.Timeline.{
  Booking, end_time, start_of_day, minutes_from_open, time_to_pixels, duration_to_pixels,
}

-- Flooring the start and the duration each on its own loses no more than flooring the sum.
floor_div_add :
    (a b c d : ℕ)
    → c + d ≤ b
    → scale (floor_div (sub_ℕ c a) 60000) 3 +ℤ pos (d / 60000 * 3)
      ≤ℤ scale (floor_div (sub_ℕ b a) 60000) 3
unfolding scale floor_div ◌+ℤ◌
floor_div_add a b c d h = ground arith

pub pixels_apart :
    (zone open_hour now start duration next : ℕ)
    → start ≢ 0
    → next ≢ 0
    → start + duration ≤ next
    → time_to_pixels zone start open_hour now +ℤ pos (duration_to_pixels duration)
      ≤ℤ time_to_pixels zone next open_hour now
unfolding time_to_pixels minutes_from_open duration_to_pixels
pixels_apart zone open_hour now start duration next hs hn h =
    rw (==_false start 0 hs, ==_false next 0 hn)
      (floor_div_add (start_of_day zone now open_hour) next start duration h)

-- Where one booking ends at or before the start of another and neither starts at the epoch, the block
-- of the first, from its left edge over its width, ends at or before the left edge of the second.
pub time_to_pixels_disjoint :
    (zone open_hour now : ℕ) (a b : Booking)
    → a.start_time ≢ 0
    → b.start_time ≢ 0
    → end_time a ≤ b.start_time
    → time_to_pixels zone a.start_time open_hour now +ℤ pos (duration_to_pixels a.duration)
      ≤ℤ time_to_pixels zone b.start_time open_hour now
time_to_pixels_disjoint zone open_hour now a b ha hb h =
    pixels_apart zone open_hour now a.start_time a.duration b.start_time ha hb h
