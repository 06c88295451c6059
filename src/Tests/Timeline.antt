-- ===== src/Tests/Timeline.antt =====
-- timelineUtils.js
use gbc_smart_management.Base.{
  ℕ, ◌+◌, ◌-◌, ◌≤◌, ◌<◌, ◌≡◌, refl, [], ◌∷◌, map, All, codes, pos, negsuc, ◌+ℤ◌, ◌≤ℤ◌, decimal,
  scale, floor_div, ceil_div,
}
use gbc_smart_management.Timeline.{
  start_of_day, minutes_from_open, end_hour, max_end_hour, dynamic_close_hour, hour_label, hour_12,
  is_am, left, hour_marks, marks_from, timeline_headers,
}
use gbc_smart_management.Timeline.CloseHour
use gbc_smart_management.Tests.Data.{zone, ten, noon, bookings}

start_of_day_at_noon : start_of_day zone noon 10 ≡ ten
unfolding start_of_day
start_of_day_at_noon = refl

-- Half past two at night belongs to the day before.
start_of_day_at_night : start_of_day zone (noon + 52200000) 10 ≡ ten
unfolding start_of_day
start_of_day_at_night = refl

minutes_before_opening : minutes_from_open zone (ten - 90001) 10 noon ≡ negsuc 1
unfolding minutes_from_open start_of_day floor_div
minutes_before_opening = refl

label_noon : hour_label 12 ≡ codes "12:00 PM"
unfolding hour_label hour_12 is_am decimal
label_noon = refl

label_after_midnight : hour_label 25 ≡ codes "1:00 AM"
unfolding hour_label hour_12 is_am decimal
label_after_midnight = refl

marks_of_an_hour : map left (timeline_headers 10 11) ≡ 0 ∷ 45 ∷ 90 ∷ 135 ∷ 180 ∷ []
unfolding timeline_headers marks_from hour_marks
marks_of_an_hour = refl

close_hour_stays : dynamic_close_hour zone bookings 10 12 noon ≡ 14
unfolding dynamic_close_hour max_end_hour end_hour minutes_from_open start_of_day floor_div ceil_div
    scale ◌+ℤ◌
close_hour_stays = refl

dynamic_close_hour_least_example :
    let close = dynamic_close_hour zone bookings 10 12 noon in
    (close ≤ 30)
    × (close < 30 → (12 ≤ close) × All (λ b. end_hour zone 10 noon b ≤ℤ pos close) bookings)
    × ((bound : ℕ)
        → 12 ≤ bound
        → All (λ b. end_hour zone 10 noon b ≤ℤ pos bound) bookings
        → close ≤ bound)
dynamic_close_hour_least_example = CloseHour.dynamic_close_hour_least zone 10 noon bookings 12
