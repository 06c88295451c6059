-- ===== src/Tests/Listing.antt =====
-- backend/internal/handler and the pages
use gbc_smart_management.Base.{
  ℕ, ◌+◌, ◌*◌, ◌≡◌, refl, arith, List, [], ◌∷◌, some, false, inl, inr, pos, codes, ◌++◌, ◌+ℤ◌, Any,
  some_by, split, number, filter_by, is_blank,
}
use gbc_smart_management.Timeline.{Booking, start_of_day}
use gbc_smart_management.Slots.{
  free_slots, scan_bookings, add_slot_if_valid, sort_bookings, insert_booking,
}
use gbc_smart_management.Api.{create_booking, check_out_of}
use gbc_smart_management.Bookings.{to_booking, timeline_bookings}
use gbc_smart_management.BookingForm.{BookingData}
use gbc_smart_management.BookingForm.Bookable.{Books, slot_props, free_slots_can_be_booked}
use gbc_smart_management.Backend.Rows.{
  Row, active, has_overlap, overlaps, is_excluded, insert_row, is_in_window, is_live, find_timeline,
  sort_rows, insert_sorted, comes_first,
}
use gbc_smart_management.Backend.Days.{
  day_start, day_end, start_ms, close_ms, clock_ms, config_or_default, atoi,
}
use gbc_smart_management.Backend.Bookings.{
  ok, config_read, timeline_of_day, check_create, write_create, parse_times, read_time,
  minutes_between, is_past_day, overlap_check, is_running, emit_timeline, is_given,
}
use gbc_smart_management.Backend.Handlers.{handle_create, then_write, body_status}
use gbc_smart_management.Backend.Acceptance.{as_input}
use gbc_smart_management.Backend.Listing.{
  on_date, handle_timeline, get_timeline, raw_of, listed, listed_at,
}
use gbc_smart_management.Backend.Listing.Created.{created_booking_is_listed}
use gbc_smart_management.Backend.Listing.Offered.{listed_day_can_be_booked}
use gbc_smart_management.Tests.Data.{zone, noon, half_past_noon}
use gbc_smart_management.Tests.BookingForm.{free_hour}
use gbc_smart_management.Tests.Backend.{rows, venue, all_well}

-- The number of the day, and its rows.
abbrev ninth : ℕ
ninth = 20463

rows_of_day : handle_timeline zone (all_well noon) (on_date ninth) (venue rows) ≡ ok rows
unfolding handle_timeline get_timeline config_read timeline_of_day day_start day_end start_ms
    close_ms clock_ms config_or_default atoi split number find_timeline sort_rows insert_sorted
    comes_first is_in_window is_live filter_by
rows_of_day = refl

-- The hour from noon is free.
hour_is_listed : Any (λ x. x ≡ free_hour) (free_slots zone noon (listed_at 1 rows) 24 noon 10)
unfolding free_slots scan_bookings add_slot_if_valid sort_bookings insert_booking start_of_day
    listed_at listed timeline_bookings to_booking raw_of filter_by
hour_is_listed = inl refl

half_hour :
    Books (slot_props zone 10 1500 (listed_at 1 rows) 1 free_hour) 1 free_hour (codes "Cal") 30
unfolding is_blank
half_hour =
    free_slots_can_be_booked zone 10 1500 (listed_at 1 rows) 1 (codes "Cal") 30 (omega arith) refl
      (omega arith) (omega arith) noon 24 noon free_hour (omega arith) hour_is_listed (omega arith)

listed_day_can_be_booked_example :
    (r : Row) × ((handle_create zone
        (all_well noon)
        "c"
        (some (as_input (create_booking half_hour.3)))
        "s"
        "staff"
        (venue rows)).0
      ≡ ok r)
    × (r.table_id ≡ 1)
    × (r.check_in ≡ noon)
    × (r.check_out ≡ noon + 30 * 60000)
unfolding is_blank config_read day_start day_end start_ms close_ms clock_ms split config_or_default
    atoi number
listed_day_can_be_booked_example =
    listed_day_can_be_booked zone 10 1500 ninth 1 (codes "Cal") 30 (all_well noon) (venue rows) rows
      rows_of_day (omega arith) refl (omega arith) (omega arith) noon 24 noon free_hour
      (omega arith) hour_is_listed refl (omega arith) half_hour (omega arith) (omega arith)
      (all_well noon) "c" "s" "staff" (venue rows) refl (omega arith) (omega arith) (refl, refl)
      (inr (omega arith))

abbrev asked : BookingData
asked = record {
  table_id = 1;
  player = codes "Cal";
  mobile = [];
  start_time = noon;
  duration = pos 1800000;
  amount = pos 75000;
  paid = false;
}

abbrev answered : Row
answered = record {
  id = "c";
  table_id = 1;
  booker_name = codes "Cal";
  booker_mobile = [];
  check_in = noon;
  check_out = half_past_noon;
  duration_minutes = 30;
  amount = pos 75000;
  is_paid = false;
  status = active;
  created_by = "s";
  created_at = noon;
}

-- The rows in the order of the timeline.
abbrev listed_rows : List Row
listed_rows = sort_rows (rows ++ answered ∷ [])

answer_is_made :
    (handle_create zone
      (all_well noon)
      "c"
      (some (as_input (create_booking asked)))
      "s"
      "staff"
      (venue rows)).0
    ≡ ok answered
unfolding handle_create then_write body_status as_input create_booking check_out_of ◌+ℤ◌
    check_create parse_times read_time minutes_between is_past_day overlap_check has_overlap
    overlaps is_excluded is_given some_by is_live write_create
answer_is_made = refl

day_is_listed :
    handle_timeline zone
      (all_well noon)
      (on_date ninth)
      (handle_create zone
        (all_well noon)
        "c"
        (some (as_input (create_booking asked)))
        "s"
        "staff"
        (venue rows)).1
    ≡ ok listed_rows
unfolding handle_timeline get_timeline config_read timeline_of_day day_start day_end start_ms
    close_ms clock_ms config_or_default atoi split number find_timeline sort_rows insert_sorted
    comes_first is_in_window is_live filter_by handle_create then_write body_status as_input
    create_booking check_out_of ◌+ℤ◌ check_create parse_times read_time minutes_between is_past_day
    overlap_check has_overlap overlaps is_excluded is_given some_by write_create emit_timeline
    insert_row is_running
day_is_listed = refl

created_booking_is_listed_example :
    Any
      (λ (b : Booking). b ≡ record {
        booking_id = "c";
        table_id = 1;
        player = codes "Cal";
        mobile = [];
        start_time = noon;
        duration = 1800000;
        amount = 75000;
        paid = false;
      })
      (listed listed_rows)
unfolding config_read day_start day_end start_ms close_ms clock_ms split config_or_default atoi
    number handle_create then_write body_status as_input create_booking check_out_of ◌+ℤ◌
    check_create parse_times read_time minutes_between is_past_day overlap_check has_overlap
    overlaps is_excluded is_given some_by is_live write_create emit_timeline insert_row is_running
created_booking_is_listed_example =
    created_booking_is_listed zone ninth (all_well noon) (all_well noon) "c" "s" "staff" asked
      (venue rows) 1800000 75000 answered listed_rows refl refl refl answer_is_made day_is_listed
      (omega arith) (omega arith)
