-- ===== src/Slots/Gaps.antt =====
-- The loop of `calculateFreeSlots` as a plain recursion over the bookings: one gap before each of
-- them and one at the end, each of which gives a slot or none.
use mathlib.Core.List.{append-nil, append_assoc}
use gbc_smart_management.Base.{
  ℕ, ◌-◌, ◌≡◌, sym, ◌∙◌, ap, List, [], ◌∷◌, ◌++◌, arith, ltb, if◌then◌else◌, max, inl, inr,
  Bool-cases,
}
use gbc_smart_management.Timeline.{Booking, end_time}
use gbc_smart_management.Slots.{Slot, add_slot_if_valid, scan_bookings}

-- The slot from `a` on, or from now if that is later, up to `b`, if it is long enough.
unfoldable pub gap : ℕ → ℕ → ℕ → List Slot
gap now a b = if ltb a b then add_slot_if_valid now a (b - a) [] else []

unfoldable pub gaps : ℕ → ℕ → List Booking → ℕ → List Slot
gaps now close_time [] cursor = gap now cursor close_time
gaps now close_time (b ∷ bs) cursor =
    gap now cursor b.start_time ++ gaps now close_time bs (max cursor (end_time b))

add_slot-append :
    (now start duration : ℕ) (slots : List Slot)
    → add_slot_if_valid now start duration slots ≡ slots ++ add_slot_if_valid now start duration []
unfolding add_slot_if_valid
add_slot-append now start duration slots = ground (arith, append-nil slots)

gap-append :
    (now a b : ℕ) (slots : List Slot)
    → (if ltb a b then add_slot_if_valid now a (b - a) slots else slots) ≡ slots ++ gap now a b
unfolding gap
gap-append now a b slots = elim (Bool-cases (ltb a b)) [
  | inl e ↦ rw e (add_slot-append now a (b - a) slots)
  | inr e ↦ rw e (sym (append-nil slots))
]

pub scan_bookings-gaps :
    (now close_time : ℕ) (bs : List Booking) (cursor : ℕ) (slots : List Slot)
    → scan_bookings now close_time bs cursor slots ≡ slots ++ gaps now close_time bs cursor
unfolding scan_bookings gaps
scan_bookings-gaps now close_time [] cursor slots = gap-append now cursor close_time slots
scan_bookings-gaps now close_time (b ∷ bs) cursor slots =
    scan_bookings-gaps now close_time bs (max cursor (end_time b)) _
    ∙ ap (λ l. l ++ gaps now close_time bs (max cursor (end_time b)))
        (gap-append now cursor b.start_time slots)
    ∙ append_assoc slots (gap now cursor b.start_time) _
