-- ===== src/Slots/Sorting.antt =====
-- The sort by start time.
use gbc_smart_management.Base.{ℕ, ◌≤◌, inl, inr, List, [], ◌∷◌, All, arith, leb, leb→le, Bool-cases}
use gbc_smart_management.Timeline.{Booking}
use gbc_smart_management.Slots.{insert_booking, sort_bookings}

-- Every booking starts no later than those behind it.
abbrev pub IsSorted : List Booking → Type 0
IsSorted [] = Unit {0}
IsSorted (b ∷ bs) = All (λ x. b.start_time ≤ x.start_time) bs × IsSorted bs

module _ (P : Booking → Type 0) where
  All-insert_booking :
      (b : Booking) (bs : List Booking) → P b → All P bs → All P (insert_booking b bs)
  unfolding insert_booking
  All-insert_booking b [] h hs = (h, tt)
  All-insert_booking b (x ∷ xs) h hs = elim (Bool-cases (leb b.start_time x.start_time)) [
    | inl e ↦ rw e (h, hs)
    | inr e ↦ rw e (hs.0, All-insert_booking b xs h hs.1)
  ]

  All-of_insert_booking :
      (b : Booking) (bs : List Booking) → All P (insert_booking b bs) → P b × All P bs
  unfolding insert_booking
  All-of_insert_booking b [] h = h
  All-of_insert_booking b (x ∷ xs) h =
      let split : All P (insert_booking b (x ∷ xs)) → P b × All P (x ∷ xs) =
        elim (Bool-cases (leb b.start_time x.start_time)) [
          | inl e ↦ rw e (λ all. all)
          | inr e ↦ rw e (λ all. let ih = All-of_insert_booking b xs all.1 in (ih.0, (all.0, ih.1)))
        ] in
      split h

  -- The sort keeps what holds of every booking, and adds no booking.
  pub All-sort_bookings : (bs : List Booking) → All P bs → All P (sort_bookings bs)
  unfolding sort_bookings
  All-sort_bookings [] h = tt
  All-sort_bookings (b ∷ bs) h =
      All-insert_booking b (sort_bookings bs) h.0 (All-sort_bookings bs h.1)

  pub All-of_sort_bookings : (bs : List Booking) → All P (sort_bookings bs) → All P bs
  unfolding sort_bookings
  All-of_sort_bookings [] h = tt
  All-of_sort_bookings (b ∷ bs) h =
      let both = All-of_insert_booking b (sort_bookings bs) h in
      (both.0, All-of_sort_bookings bs both.1)

later-All :
    (a b : ℕ) (bs : List Booking)
    → a ≤ b
    → All (λ x. b ≤ x.start_time) bs
    → All (λ x. a ≤ x.start_time) bs
later-All a b [] h hs = tt
later-All a b (x ∷ xs) h hs = (omega arith, later-All a b xs h hs.1)

insert_booking-IsSorted :
    (b : Booking) (bs : List Booking) → IsSorted bs → IsSorted (insert_booking b bs)
unfolding insert_booking
insert_booking-IsSorted b [] h = (tt, tt)
insert_booking-IsSorted b (x ∷ xs) h = elim (Bool-cases (leb b.start_time x.start_time)) [
  | inl e ↦
      let le = leb→le b.start_time x.start_time e in
      rw e ((le, later-All b.start_time x.start_time xs le h.0), h)
  | inr e ↦ rw e (
    All-insert_booking (λ y. x.start_time ≤ y.start_time) b xs (ground arith) h.0,
    insert_booking-IsSorted b xs h.1,
  )
]

pub sort_bookings-IsSorted : (bs : List Booking) → IsSorted (sort_bookings bs)
unfolding sort_bookings
sort_bookings-IsSorted [] = tt
sort_bookings-IsSorted (b ∷ bs) =
    insert_booking-IsSorted b (sort_bookings bs) (sort_bookings-IsSorted bs)
