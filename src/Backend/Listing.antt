-- ===== src/Backend/Listing.antt =====
-- `GetTimeline` of backend/internal/handler/booking_handler.go, and the page that shows what it answers
-- with: frontend/src/pages/Bookings.jsx and its timeline.
pub mod Rows
pub mod Created
pub mod Offered
use gbc_smart_management.Base.{ℕ, ◌/◌, ◌==◌, List, map, pos_part, filter_by, if◌then◌else◌}
use gbc_smart_management.Store.{RawBooking}
use gbc_smart_management.Timeline.{Booking}
use gbc_smart_management.Bookings.{timeline_bookings}
use gbc_smart_management.Backend.Rows.{Row}
use gbc_smart_management.Backend.Bookings.{
  Venue, Circumstances, Answer, ok, failed, config_read, timeline_of_day,
}

-- The date of the query, as the number of its day.
pub data DateQuery : Type 0 where
  no_date bad_date : DateQuery
  on_date : ℕ → DateQuery

unfoldable pub get_timeline : ℕ → Circumstances → ℕ → Venue → Answer (List Row)
get_timeline zone e date v =
    if e.reads_timeline then ok (timeline_of_day zone date (config_read e v) v) else failed 500

-- Without a date, the one of the UTC clock.
unfoldable pub handle_timeline : ℕ → Circumstances → DateQuery → Venue → Answer (List Row)
handle_timeline zone e no_date v = get_timeline zone e (e.now / 86400000) v
handle_timeline zone e bad_date v = failed 500
handle_timeline zone e (on_date date) v = get_timeline zone e date v

-- A row as the answer has it. A negative amount is none here.
unfoldable pub raw_of : Row → RawBooking
raw_of r = record {
  id = r.id;
  table_id = r.table_id;
  booker_name = r.booker_name;
  booker_mobile = r.booker_mobile;
  check_in_time = r.check_in;
  check_out_time = r.check_out;
  amount = pos_part r.amount;
  is_paid = r.is_paid;
}

-- The bookings of the page, and those in the row of one table.
unfoldable pub listed : List Row → List Booking
listed rows = timeline_bookings (map raw_of rows)

unfoldable pub listed_at : ℕ → List Row → List Booking
listed_at table rows = filter_by (λ b. b.table_id == table) (listed rows)
