-- ===== src/Backend/Listing/Rows.antt =====
-- A row of the day is listed.
use gbc_smart_management.Base.{
  ℕ, ◌==◌, ==_iff, true, ◌≡◌, refl, arith, subst, inl, inr, List, [], ◌∷◌, Any, Any-filter_by,
  Any-map, Bool-cases, map,
}
use gbc_smart_management.Timeline.{Booking}
use gbc_smart_management.Bookings.{to_booking, timeline_bookings}
use gbc_smart_management.Backend.Rows.{
  Row, is_in_window, comes_first, insert_sorted, sort_rows, find_timeline,
}
use gbc_smart_management.Backend.Days.{VenueConfig, day_start, day_end}
use gbc_smart_management.Backend.Bookings.{Venue, Circumstances, ok, config_read, timeline_of_day}
use gbc_smart_management.Backend.Listing.{
  on_date, handle_timeline, get_timeline, raw_of, listed, listed_at,
}

handle_timeline-ok :
    (zone date : ℕ) (e : Circumstances) (v : Venue) (rows : List Row)
    → handle_timeline zone e (on_date date) v ≡ ok rows
    → timeline_of_day zone date (config_read e v) v ≡ rows
unfolding handle_timeline get_timeline
handle_timeline-ok zone date e v rows h = ground arith

module _ (r : Row) where
  Any-insert_sorted :
      (q : Row) (rows : List Row)
      → Any (λ x. x ≡ r) (q ∷ rows)
      → Any (λ x. x ≡ r) (insert_sorted q rows)
  unfolding insert_sorted
  Any-insert_sorted q [] there = there
  Any-insert_sorted q (p ∷ rows) there = elim (Bool-cases (comes_first q p)) [
    | inl first ↦ rw first there
    | inr later ↦ rw later (elim there [
      | inl here ↦ inr (Any-insert_sorted q rows (inl here))
      | inr (inl next) ↦ inl next
      | inr (inr rest) ↦ inr (Any-insert_sorted q rows (inr rest))
    ])
  ]

  Any-sort_rows : (rows : List Row) → Any (λ x. x ≡ r) rows → Any (λ x. x ≡ r) (sort_rows rows)
  unfolding sort_rows
  Any-sort_rows [] there = there
  Any-sort_rows (q ∷ rows) (inl here) = Any-insert_sorted q (sort_rows rows) (inl here)
  Any-sort_rows (q ∷ rows) (inr there) =
      Any-insert_sorted q (sort_rows rows) (inr (Any-sort_rows rows there))

  Any-timeline_of_day :
      (zone date : ℕ) (c : VenueConfig) (v : Venue)
      → is_in_window (day_start zone date c) (day_end zone date c) r ≡ true
      → Any (λ x. x ≡ r) v.rows
      → Any (λ x. x ≡ r) (timeline_of_day zone date c v)
  unfolding timeline_of_day find_timeline
  Any-timeline_of_day zone date c v shown there = Any-sort_rows _ (
      Any-filter_by (is_in_window (day_start zone date c) (day_end zone date c)) r v.rows shown
        there)

  pub Any-listed :
      (rows : List Row) → Any (λ x. x ≡ r) rows → Any (λ b. b ≡ to_booking (raw_of r)) (listed rows)
  unfolding listed timeline_bookings
  Any-listed rows there =
      Any-map to_booking (raw_of r) (map raw_of rows) (Any-map raw_of r rows there)

  pub Any-listed_at :
      (rows : List Row)
      → Any (λ x. x ≡ r) rows
      → Any (λ b. b ≡ to_booking (raw_of r)) (listed_at r.table_id rows)
  unfolding listed_at to_booking raw_of
  Any-listed_at rows there =
      Any-filter_by (λ (b : Booking). b.table_id == r.table_id) (to_booking (raw_of r))
        (listed rows) ((==_iff r.table_id r.table_id).1 refl) (Any-listed rows there)

  -- What a request for a day is answered with has the rows of the day.
  pub handle_timeline-Any :
      (zone date : ℕ) (e : Circumstances) (v : Venue) (rows : List Row)
      → handle_timeline zone e (on_date date) v ≡ ok rows
      → let c = config_read e v in
        is_in_window (day_start zone date c) (day_end zone date c) r ≡ true
        → Any (λ x. x ≡ r) v.rows
        → Any (λ x. x ≡ r) rows
  handle_timeline-Any zone date e v rows h shown there =
      subst (Any (λ x. x ≡ r)) (handle_timeline-ok zone date e v rows h)
        (Any-timeline_of_day zone date (config_read e v) v shown there)
