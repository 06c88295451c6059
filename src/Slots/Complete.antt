-- ===== src/Slots/Complete.antt =====
-- No free time is lost.
use gbc_smart_management.Base.{
  ℕ, ◌+◌, ◌≤◌, ◌⊎◌, inl, inr, List, [], ◌∷◌, All, Any, Any-append_left, Any-append_right, arith,
  max,
}
use gbc_smart_management.Timeline.{Booking, end_time, start_of_day}
use gbc_smart_management.Slots.{Slot, slot_end, add_slot_if_valid, free_slots, close_time_of}
use gbc_smart_management.Slots.Sorting.{All-sort_bookings}
use gbc_smart_management.Slots.Gaps.{gap, gaps}
use gbc_smart_management.Slots.Sound.{free_slots-gaps}

module _ (from until : ℕ) where
  -- The time from `from` to `until` and a booking share no time.
  abbrev pub IsFree : Booking → Type 0
  IsFree b = (until ≤ b.start_time) ⊎ (end_time b ≤ from)

  -- The slot holds the whole of it.
  abbrev pub Covers : Slot → Type 0
  Covers s = (s.start_timestamp ≤ from) × (until ≤ slot_end s)

  module _ (now : ℕ) (future : now ≤ from) (long : from + 900000 ≤ until) where
    gap-Covers : (a b : ℕ) → a ≤ from → until ≤ b → Any Covers (gap now a b)
    unfolding gap add_slot_if_valid
    gap-Covers a b h k = ground arith

    gaps_cover :
        (close_time : ℕ) (bs : List Booking) (cursor : ℕ)
        → cursor ≤ from
        → until ≤ close_time
        → All IsFree bs
        → Any Covers (gaps now close_time bs cursor)
    unfolding gaps
    gaps_cover close_time [] cursor h k free = gap-Covers cursor close_time h k
    gaps_cover close_time (b ∷ bs) cursor h k (inl before, free) =
        Any-append_left Covers _ _ (gap-Covers cursor b.start_time h before)
    gaps_cover close_time (b ∷ bs) cursor h k (inr after, free) =
        Any-append_right Covers (gap now cursor b.start_time) _
          (gaps_cover close_time bs (max cursor (end_time b)) (omega arith) k free)

-- Any time of 15 minutes or more within the working hours, not in the past and apart from every
-- booking, lies wholly within one of the free slots.
pub free_slots_cover :
    (zone today : ℕ) (bookings : List Booking) (close_hour now open_hour from until : ℕ)
    → start_of_day zone today open_hour ≤ from
    → now ≤ from
    → from + 900000 ≤ until
    → until ≤ close_time_of zone today close_hour open_hour
    → All (IsFree from until) bookings
    → Any (Covers from until) (free_slots zone today bookings close_hour now open_hour)
free_slots_cover zone today bookings close_hour now open_hour from until h1 h2 h3 h4 free =
    rw (free_slots-gaps zone today bookings close_hour now open_hour) (
      gaps_cover from until now h2 h3 _ _ _ h1 h4
        (All-sort_bookings (IsFree from until) bookings free))
