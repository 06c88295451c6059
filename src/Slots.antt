-- ===== src/Slots.antt =====
-- frontend/src/components/timeline/TimelineRow.jsx: the free slots between the bookings of a table.
pub mod Sorting
pub mod Gaps
pub mod Sound
pub mod Complete
use gbc_smart_management.Base.{ℕ, ◌+◌, ◌-◌, ◌*◌, List, [], ◌∷◌, ◌++◌, ltb, leb, if◌then◌else◌, max}
use gbc_smart_management.Timeline.{Booking, end_time, start_of_day, min_slot_mins}

pub record Slot : Type 0 where
  pub start_timestamp : ℕ
  pub duration_ms : ℕ

abbrev pub slot_end : Slot → ℕ
slot_end s = s.start_timestamp + s.duration_ms

-- `[...bookings].sort((a, b) => a.startTime - b.startTime)`: the sort is stable, so its result is the
-- one of an insertion sort in which an entry goes before those that start with it or later.
unfoldable pub insert_booking : Booking → List Booking → List Booking
insert_booking b [] = b ∷ []
insert_booking b (x ∷ xs) =
    if leb b.start_time x.start_time then b ∷ x ∷ xs else x ∷ insert_booking b xs

unfoldable pub sort_bookings : List Booking → List Booking
sort_bookings [] = []
sort_bookings (b ∷ bs) = insert_booking b (sort_bookings bs)

-- `addSlotIfValid`: the slots found so far are an argument. A duration that would be negative is 0
-- here, and is below the least duration as well.
unfoldable pub add_slot_if_valid : ℕ → ℕ → ℕ → List Slot → List Slot
add_slot_if_valid now start duration slots =
    let slot_start = if ltb start now then now else start in
    let new_duration = start + duration - slot_start in
    if leb (min_slot_mins * 60000) new_duration
    then slots ++ record { start_timestamp = slot_start; duration_ms = new_duration } ∷ []
    else slots

-- `sortedBookings.forEach` and the check behind it, over the slots so far and the cursor.
unfoldable pub scan_bookings : ℕ → ℕ → List Booking → ℕ → List Slot → List Slot
scan_bookings now close_time [] cursor slots =
    if ltb cursor close_time
    then add_slot_if_valid now cursor (close_time - cursor) slots
    else slots
scan_bookings now close_time (b ∷ bs) cursor slots =
    scan_bookings now close_time bs (max cursor (end_time b)) (
      if ltb cursor b.start_time
      then add_slot_if_valid now cursor (b.start_time - cursor) slots
      else slots)

-- The end of the working hours on the business day of `today`.
abbrev pub close_time_of : ℕ → ℕ → ℕ → ℕ → ℕ
close_time_of zone today close_hour open_hour =
    start_of_day zone today open_hour + (close_hour - open_hour) * 3600000

-- `calculateFreeSlots`; `today` is what `new Date()` returns.
unfoldable pub free_slots : ℕ → ℕ → List Booking → ℕ → ℕ → ℕ → List Slot
free_slots zone today bookings close_hour current_time open_hour =
    scan_bookings current_time (close_time_of zone today close_hour open_hour)
      (sort_bookings bookings) (start_of_day zone today open_hour) []
