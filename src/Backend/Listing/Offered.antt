-- ===== src/Backend/Listing/Offered.antt =====
-- From the timeline of a day, as the server lists it, to a booking that the server accepts.
use gbc_smart_management.Base.{
  ℕ, ◌+◌, ◌*◌, ◌%◌, ◌≤◌, ◌<◌, ◌==◌, ==_iff, Bool, true, false, ◌&&◌, ◌≡◌, inl, inr, ◌∙◌, ap, subst,
  arith, List, none, some, String, Text, is_blank, All, Any, All-Any, All-of-Any, All-some_by,
  Bool-cases,
}
use gbc_smart_management.Api.{create_booking}
use gbc_smart_management.Slots.{Slot, free_slots}
use gbc_smart_management.Bookings.{to_booking}
use gbc_smart_management.BookingForm.Bookable.{Books, slot_props}
use gbc_smart_management.Backend.Rows.{Row, overlaps, has_overlap, is_excluded, is_in_window}
use gbc_smart_management.Backend.Days.{day_start, day_end}
use gbc_smart_management.Backend.Bookings.{Venue, Circumstances, ok, config_read}
use gbc_smart_management.Backend.Handlers.{handle_create}
use gbc_smart_management.Backend.Acceptance.{
  as_input, IsApartFrom, Answers, MayBook, free_slot_is_accepted, offered_time-apart,
}
use gbc_smart_management.Backend.Listing.{on_date, handle_timeline, raw_of, listed_at}
use gbc_smart_management.Backend.Listing.Rows.{handle_timeline-Any, Any-listed_at}

both : (p q : Bool) → (p && q) ≡ true → (p ≡ true) × (q ≡ true)
both p q h = ground arith

-- A time within the hours of the day that is apart from the bookings listed for the table meets no row.
module _ (zone date table start end : ℕ) (e : Circumstances) (v : Venue) (rows : List Row)
    (got : handle_timeline zone e (on_date date) v ≡ ok rows)
    (opens : day_start zone date (config_read e v) ≤ start)
    (closes : end ≤ day_end zone date (config_read e v))
    (apart : All (IsApartFrom start end) (listed_at table rows)) where
  clear_of_listed :
      (r : Row)
      → IsApartFrom start end (to_booking (raw_of r))
      → overlaps table start end none r ≡ false
  unfolding overlaps to_booking raw_of is_excluded
  clear_of_listed r h = ground (arith, h)

  clear_of_other :
      (r : Row)
      → (r.table_id == table
          && is_in_window
              (day_start zone date (config_read e v))
              (day_end zone date (config_read e v))
              r)
        ≡ false
      → overlaps table start end none r ≡ false
  unfolding overlaps is_in_window is_excluded
  clear_of_other r h = ground arith

  clear_of_row : (r : Row) → Any (λ x. x ≡ r) v.rows → overlaps table start end none r ≡ false
  clear_of_row r there =
      let opening = day_start zone date (config_read e v) in
      let closing = day_end zone date (config_read e v) in
      elim (Bool-cases (r.table_id == table && is_in_window opening closing r)) [
        | inl own ↦
            let (here, window) = both _ _ own in
            let listed =
              Any-listed_at r rows (handle_timeline-Any r zone date e v rows got window there) in
            let at_table =
              subst (λ t. Any (λ b. b ≡ to_booking (raw_of r)) (listed_at t rows))
                ((==_iff r.table_id table).0 here) listed in
            clear_of_listed r (
              All-Any (IsApartFrom start end) (to_booking (raw_of r)) (listed_at table rows) apart
                at_table)
        | inr other ↦ clear_of_other r other
      ]

  no_row_meets : has_overlap table start end none v.rows ≡ false
  unfolding has_overlap
  no_row_meets = All-some_by _ v.rows (All-of-Any _ v.rows clear_of_row)

-- Let the page show, for a table from 1 to 4, the bookings that the server lists for a day. Two days after
-- the epoch or later, with an opening hour of the clock and a name that is not blank, take a slot that
-- the timeline offers as free, that starts with a minute, and of it a time from its start of `n`
-- minutes, at least 15 and below a day, within the hours of that day. Let no row have
-- changed since, let the database answer, and let the user be an administrator or the slot start in the
-- operational day of the server or later. Then what the form sends for that time is accepted, with a row for
-- the table that starts with the slot and lasts `n` minutes.
pub listed_day_can_be_booked :
    (zone open_hour rate date table : ℕ) (name : Text) (n : ℕ) (e : Circumstances) (v : Venue)
    (rows : List Row)
    → (got : handle_timeline zone e (on_date date) v ≡ ok rows)
    → (hour : open_hour < 24) (named : is_blank name ≡ false) (long : 15 ≤ n) (below_day : n < 1440)
    → (today close_hour now : ℕ) (s : Slot) → (late : 172800000 ≤ now)
    → (offered : Any
        (λ x. x ≡ s)
        (free_slots zone today (listed_at table rows) close_hour now open_hour))
    → (whole : (s.start_timestamp + zone) % 60000 ≡ 0) → (room : n * 60000 ≤ s.duration_ms)
    → (b : Books (slot_props zone open_hour rate (listed_at table rows) table s) table s name n)
    → day_start zone date (config_read e v) ≤ s.start_timestamp
    → s.start_timestamp + n * 60000 ≤ day_end zone date (config_read e v)
    → (f : Circumstances) (id by role : String) (u : Venue) → u.rows ≡ v.rows
    → 1 ≤ table
    → table ≤ 4
    → Answers f
    → MayBook zone f role s.start_timestamp u
    → (r : Row) × ((handle_create zone f id (some (as_input (create_booking b.3))) by role u).0
        ≡ ok r)
      × (r.table_id ≡ table)
      × (r.check_in ≡ s.start_timestamp)
      × (r.check_out ≡ s.start_timestamp + n * 60000)
listed_day_can_be_booked zone open_hour rate date table name n e v rows got hour named long
      below_day today close_hour now s late offered whole room b opens closes f id by role u same
      least most answers may =
    let bookings = listed_at table rows in
    let end = s.start_timestamp + n * 60000 in
    let apart =
      offered_time-apart zone open_hour rate bookings table name n hour named long below_day today
        close_hour now s late offered whole room b in
    free_slot_is_accepted zone open_hour rate bookings table name n hour named long below_day today
      close_hour now s late offered whole room b f id by role u least most
      (ap (has_overlap table s.start_timestamp end none) same
        ∙ no_row_meets zone date table s.start_timestamp end e v rows got opens closes apart)
      answers may
