-- ===== src/Slots/Sound.antt =====
-- What holds of every free slot.
use gbc_smart_management.Base.{
  ℕ, ◌≤◌, ◌≡◌, ◌⊎◌, inl, inr, List, [], ◌∷◌, ◌++◌, All, All-append, All-imp, arith, max,
}
use gbc_smart_management.Timeline.{Booking, end_time, start_of_day}
use gbc_smart_management.Slots.{
  Slot, slot_end, sort_bookings, add_slot_if_valid, free_slots, close_time_of,
}
use gbc_smart_management.Slots.Sorting.{IsSorted, sort_bookings-IsSorted, All-of_sort_bookings}
use gbc_smart_management.Slots.Gaps.{gap, gaps, scan_bookings-gaps}

-- A slot and a booking share no time.
abbrev pub Apart : Slot → Booking → Type 0
Apart s b = (slot_end s ≤ b.start_time) ⊎ (end_time b ≤ s.start_timestamp)

-- A slot that may be booked: from `opening` on, not in the past, 15 minutes long at least, and apart
-- from every booking.
pub record IsBookable (now opening : ℕ) (bookings : List Booking) (s : Slot) : Type 0 where
  pub within : opening ≤ s.start_timestamp
  pub future : now ≤ s.start_timestamp
  pub long_enough : 900000 ≤ s.duration_ms
  pub apart : All (Apart s) bookings

-- The slots follow one another and do not overlap.
abbrev pub IsOrdered : List Slot → Type 0
IsOrdered [] = Unit {0}
IsOrdered (s ∷ rest) = All (λ r. slot_end s ≤ r.start_timestamp) rest × IsOrdered rest

-- What a single gap gives.
record InGap (now a b : ℕ) (s : Slot) : Type 0 where
  from : a ≤ s.start_timestamp
  future : now ≤ s.start_timestamp
  long_enough : 900000 ≤ s.duration_ms
  ends : slot_end s ≡ b

gap-InGap : (now a b : ℕ) → All (InGap now a b) (gap now a b)
unfolding gap add_slot_if_valid
gap-InGap now a b = ground arith

gap-IsOrdered : (now a b : ℕ) → IsOrdered (gap now a b)
unfolding gap add_slot_if_valid
gap-IsOrdered now a b = ground arith

Apart-later :
    (s : Slot) (bs : List Booking) (m : ℕ)
    → slot_end s ≤ m
    → All (λ b. m ≤ b.start_time) bs
    → All (Apart s) bs
Apart-later s [] m h hs = tt
Apart-later s (b ∷ bs) m h hs = (inl (omega arith), Apart-later s bs m h hs.1)

gap-IsBookable :
    (now cursor : ℕ) (b : Booking) (bs : List Booking)
    → IsSorted (b ∷ bs)
    → All (IsBookable now cursor (b ∷ bs)) (gap now cursor b.start_time)
gap-IsBookable now cursor b bs sorted =
    All-imp (InGap now cursor b.start_time) (IsBookable now cursor (b ∷ bs))
      (λ s g. record {
        within = g.from;
        future = g.future;
        long_enough = g.long_enough;
        apart = (
          inl (omega (arith, g.ends)),
          Apart-later s bs b.start_time (omega (arith, g.ends)) sorted.0,
        );
      })
      _ (gap-InGap now cursor b.start_time)

gaps-IsBookable :
    (now close_time : ℕ) (bs : List Booking) (cursor : ℕ)
    → IsSorted bs
    → All (IsBookable now cursor bs) (gaps now close_time bs cursor)
unfolding gaps
gaps-IsBookable now close_time [] cursor sorted =
    All-imp (InGap now cursor close_time) (IsBookable now cursor [])
      (λ s g. record {
        within = g.from;
        future = g.future;
        long_enough = g.long_enough;
        apart = tt;
      })
      _ (gap-InGap now cursor close_time)
gaps-IsBookable now close_time (b ∷ bs) cursor sorted =
    All-append (IsBookable now cursor (b ∷ bs)) _ _ (gap-IsBookable now cursor b bs sorted) (
      All-imp (IsBookable now (max cursor (end_time b)) bs) (IsBookable now cursor (b ∷ bs))
        (λ s g. record {
          within = omega (arith, g.within);
          future = g.future;
          long_enough = g.long_enough;
          apart = (inr (omega (arith, g.within)), g.apart);
        })
        _ (gaps-IsBookable now close_time bs (max cursor (end_time b)) sorted.1))

append-IsOrdered :
    (m : ℕ) (xs ys : List Slot)
    → IsOrdered xs
    → All (λ s. slot_end s ≤ m) xs
    → IsOrdered ys
    → All (λ s. m ≤ s.start_timestamp) ys
    → IsOrdered (xs ++ ys)
append-IsOrdered m [] ys ox hx oy hy = oy
append-IsOrdered m (x ∷ xs) ys ox hx oy hy = (
  All-append (λ r. slot_end x ≤ r.start_timestamp) xs ys ox.0
      (All-imp (λ s. m ≤ s.start_timestamp) (λ r. slot_end x ≤ r.start_timestamp)
        (λ r h. omega (arith, hx.0)) ys hy),
  append-IsOrdered m xs ys ox.1 hx.1 oy hy,
)

gaps-IsOrdered :
    (now close_time : ℕ) (bs : List Booking) (cursor : ℕ)
    → IsSorted bs
    → IsOrdered (gaps now close_time bs cursor)
unfolding gaps
gaps-IsOrdered now close_time [] cursor sorted = gap-IsOrdered now cursor close_time
gaps-IsOrdered now close_time (b ∷ bs) cursor sorted =
    append-IsOrdered (end_time b) _ _ (gap-IsOrdered now cursor b.start_time)
      (All-imp (InGap now cursor b.start_time) (λ s. slot_end s ≤ end_time b)
        (λ s g. omega (arith, g.ends)) _ (gap-InGap now cursor b.start_time))
      (gaps-IsOrdered now close_time bs (max cursor (end_time b)) sorted.1)
      (All-imp (IsBookable now (max cursor (end_time b)) bs) (λ s. end_time b ≤ s.start_timestamp)
        (λ s g. omega (arith, g.within)) _
        (gaps-IsBookable now close_time bs (max cursor (end_time b)) sorted.1))

pub free_slots-gaps :
    (zone today : ℕ) (bookings : List Booking) (close_hour now open_hour : ℕ)
    → free_slots zone today bookings close_hour now open_hour
      ≡ gaps now
          (close_time_of zone today close_hour open_hour)
          (sort_bookings bookings)
          (start_of_day zone today open_hour)
unfolding free_slots
free_slots-gaps zone today bookings close_hour now open_hour = scan_bookings-gaps now _ _ _ []

module _ (zone today : ℕ) (bookings : List Booking) (close_hour now open_hour : ℕ) where
  -- Every free slot, of bookings in any order and overlapping or not, starts at the opening or later
  -- and not before now, lasts 15 minutes at least, and shares no time with any booking.
  pub free_slots-IsBookable :
      All
        (IsBookable now (start_of_day zone today open_hour) bookings)
        (free_slots zone today bookings close_hour now open_hour)
  free_slots-IsBookable = rw (free_slots-gaps zone today bookings close_hour now open_hour) (
      All-imp (IsBookable now (start_of_day zone today open_hour) (sort_bookings bookings))
        (IsBookable now (start_of_day zone today open_hour) bookings)
        (λ s g. record {
          within = g.within;
          future = g.future;
          long_enough = g.long_enough;
          apart = All-of_sort_bookings (Apart s) bookings g.apart;
        })
        _ (gaps-IsBookable now _ (sort_bookings bookings) _ (sort_bookings-IsSorted bookings)))

  -- The free slots stand in the order of time: each ends at or before the start of every later one.
  pub free_slots-IsOrdered : IsOrdered (free_slots zone today bookings close_hour now open_hour)
  free_slots-IsOrdered =
      rw (free_slots-gaps zone today bookings close_hour now open_hour)
        (gaps-IsOrdered now _ (sort_bookings bookings) _ (sort_bookings-IsSorted bookings))
