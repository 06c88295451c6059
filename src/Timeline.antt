-- ===== src/Timeline.antt =====
-- frontend/src/components/timeline/timelineUtils.js: the business day, which runs from the opening
-- hour to the same hour of the next day, and the scale of the timeline in pixels.
pub mod BusinessDay
pub mod Scale
pub mod CloseHour
pub mod Headers
use gbc_smart_management.Base.{
  ℕ, zero, suc, ◌+◌, ◌-◌, ◌*◌, ◌/◌, ◌%◌, Bool, List, [], ◌∷◌, ◌++◌, ltb, ◌==◌, if◌then◌else◌, min,
  ℤ, pos, pos_part, ◌+ℤ◌, sub_ℕ, ltb_ℤ, scale, floor_div, ceil_div, Text, codes, decimal, String,
}
use gbc_smart_management.Calendar.{get_hours, set_hours}

-- What the timeline reads of a booking: the shape that pages/Bookings.jsx makes.
pub record Booking : Type 0 where
  pub booking_id : String
  pub table_id : ℕ
  pub player : Text
  pub mobile : Text
  pub start_time : ℕ
  pub duration : ℕ
  pub amount : ℕ
  pub paid : Bool

-- The exclusive end of a booking.
abbrev pub end_time : Booking → ℕ
end_time b = b.start_time + b.duration

abbrev pub pixels_per_minute : ℕ
pixels_per_minute = 3

abbrev pub min_slot_mins : ℕ
min_slot_mins = 15

-- `getTimelineStartOfDay`
unfoldable pub start_of_day : ℕ → ℕ → ℕ → ℕ
start_of_day zone base open_hour =
    let d = if ltb (get_hours zone base) open_hour then base - 86400000 else base in
    set_hours zone d open_hour 0

-- `getMinutesFromOpen`: the minutes are negative before the opening. `!timestamp` is the test for 0.
unfoldable pub minutes_from_open : ℕ → ℕ → ℕ → ℕ → ℤ
minutes_from_open zone timestamp open_hour base =
    if timestamp == 0
    then pos 0
    else floor_div (sub_ℕ timestamp (start_of_day zone base open_hour)) 60000

-- `timeToPixels`
unfoldable pub time_to_pixels : ℕ → ℕ → ℕ → ℕ → ℤ
time_to_pixels zone timestamp open_hour now =
    scale (minutes_from_open zone timestamp open_hour now) pixels_per_minute

-- `durationToPixels`
unfoldable pub duration_to_pixels : ℕ → ℕ
duration_to_pixels ms = ms / 60000 * pixels_per_minute

-- `openHour + Math.ceil(endMins / 60)` for one booking; the duration is a fraction of minutes, so
-- the sum is taken in milliseconds before the division.
unfoldable pub end_hour : ℕ → ℕ → ℕ → Booking → ℤ
end_hour zone open_hour now b =
    let start_mins = minutes_from_open zone b.start_time open_hour now in
    pos open_hour +ℤ ceil_div (scale start_mins 60000 +ℤ pos b.duration) 3600000

-- The loop of `getDynamicCloseHour`. An hour above `max_hour` is not negative.
unfoldable pub max_end_hour : ℕ → ℕ → ℕ → List Booking → ℕ → ℕ
max_end_hour zone open_hour now [] max_hour = max_hour
max_end_hour zone open_hour now (b ∷ bs) max_hour = max_end_hour zone open_hour now bs (
    if ltb_ℤ (pos max_hour) (end_hour zone open_hour now b)
    then pos_part (end_hour zone open_hour now b)
    else max_hour)

-- `getDynamicCloseHour`
unfoldable pub dynamic_close_hour : ℕ → List Booking → ℕ → ℕ → ℕ → ℕ
dynamic_close_hour zone bookings open_hour default_close_hour now =
    min (max_end_hour zone open_hour now bookings default_close_hour) (open_hour + 20)

-- `getTotalTimelineWidth`
unfoldable pub total_timeline_width : ℕ → ℕ → ℤ
total_timeline_width open_hour close_hour =
    scale (scale (sub_ℕ close_hour open_hour) 60) pixels_per_minute

-- The entries of the header: the marks of full hours carry a label.
pub data Mark : Type 0 where
  hour : Text → ℕ → Mark
  quarter : ℕ → Mark
  half : ℕ → Mark

abbrev pub left : Mark → ℕ
left (hour label x) = x
left (quarter x) = x
left (half x) = x

-- `hour12` and `ampm`
unfoldable pub hour_12 : ℕ → ℕ
hour_12 hour_24 = if hour_24 == 0 then 12 else if hour_24 % 12 == 0 then 12 else hour_24 % 12

unfoldable pub is_am : ℕ → Bool
is_am hour_24 = if hour_24 == 0 then Bool.true else ltb hour_24 12

unfoldable pub hour_label : ℕ → Text
hour_label h =
    decimal (hour_12 (h % 24))
    ++ codes ":00 "
    ++ (if is_am (h % 24) then codes "AM" else codes "PM")

-- One round of the loop of `getTimelineHeaders`, at hour `h`.
unfoldable pub hour_marks : ℕ → ℕ → ℕ → List Mark
hour_marks open_hour close_hour h =
    hour (hour_label h) ((h - open_hour) * 60 * pixels_per_minute)
    ∷ (if ltb h close_hour
        then quarter (((h - open_hour) * 60 + 15) * pixels_per_minute)
          ∷ half (((h - open_hour) * 60 + 30) * pixels_per_minute)
          ∷ quarter (((h - open_hour) * 60 + 45) * pixels_per_minute)
          ∷ []
        else [])

-- `for (let h = openHour; h <= closeHour; h++)`: `rounds` are left, from hour `h` on.
unfoldable pub marks_from : ℕ → ℕ → ℕ → ℕ → List Mark
marks_from open_hour close_hour h zero = []
marks_from open_hour close_hour h (suc rounds) =
    hour_marks open_hour close_hour h ++ marks_from open_hour close_hour (h + 1) rounds

-- `getTimelineHeaders`
unfoldable pub timeline_headers : ℕ → ℕ → List Mark
timeline_headers open_hour close_hour =
    marks_from open_hour close_hour open_hour (close_hour + 1 - open_hour)
