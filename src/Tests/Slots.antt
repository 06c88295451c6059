-- ===== src/Tests/Slots.antt =====
-- TimelineRow.jsx
use gbc_smart_management.Base.{ℕ, ◌≡◌, refl, arith, inl, inr, [], ◌∷◌, All, Any}
use gbc_smart_management.Timeline.{start_of_day}
use gbc_smart_management.Slots.{
  Slot, insert_booking, sort_bookings, add_slot_if_valid, scan_bookings, free_slots,
}
use gbc_smart_management.Slots.Sound
use gbc_smart_management.Slots.Sound.{IsBookable, IsOrdered}
use gbc_smart_management.Slots.Complete
use gbc_smart_management.Slots.Complete.{Covers}
use gbc_smart_management.Tests.Data.{zone, ten_past, noon, half_past_noon, bookings}

abbrev slot : ℕ → ℕ → Slot
slot a d = record { start_timestamp = a; duration_ms = d }

-- From ten past ten to eleven, an hour from noon, and from half past one to midnight.
slots_of_the_day :
    free_slots zone noon bookings 24 ten_past 10
    ≡ slot ten_past 3000000 ∷ slot noon 3600000 ∷ slot 1768032000000 37800000 ∷ []
unfolding free_slots scan_bookings add_slot_if_valid sort_bookings insert_booking start_of_day
slots_of_the_day = refl

free_slots-IsBookable_example :
    All
      (IsBookable ten_past (start_of_day zone noon 10) bookings)
      (free_slots zone noon bookings 24 ten_past 10)
free_slots-IsBookable_example = Sound.free_slots-IsBookable zone noon bookings 24 ten_past 10

free_slots_cover_example :
    Any (Covers noon half_past_noon) (free_slots zone noon bookings 24 ten_past 10)
unfolding start_of_day
free_slots_cover_example =
    Complete.free_slots_cover zone noon bookings 24 ten_past 10 noon half_past_noon (omega arith)
      (omega arith) (omega arith) (omega arith) (inl (omega arith), (inr (omega arith), tt))
