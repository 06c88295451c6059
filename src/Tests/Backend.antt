-- ===== src/Tests/Backend.antt =====
-- backend/internal
use gbc_smart_management.Base.{
  ℕ, ◌-◌, ◌≡◌, refl, arith, List, [], ◌∷◌, none, some, true, false, pos, codes, String, get_elem?,
  erase_idx, every, some_by,
}
use gbc_smart_management.Backend.Rows.{
  Row, active, is_live, has_overlap, overlaps, is_excluded, insert_row, same_id,
}
use gbc_smart_management.Backend.Tables.{new_tables, Channel}
use gbc_smart_management.Backend.Bookings.{
  Venue, CreateInput, Circumstances, at, failed, check_create, write_create, parse_times, read_time,
  minutes_between, is_past_day, overlap_check, is_running, emit_timeline, config_read, is_given,
}
use gbc_smart_management.Backend.Handlers.{handle_create, then_write, body_status}
use gbc_smart_management.Backend.Concurrent.{
  Crowd, Held, inserts, written, row_of_write, is_free, CrowdRun, still, then_step, locks_create,
  writes,
}
use gbc_smart_management.Backend.Concurrent.NoOverlap.{no_double_booking}
use gbc_smart_management.Tests.Data.{zone, ten, noon, half_past_noon}

abbrev pub row : String → ℕ → ℕ → ℕ → Row
row id table check_in check_out = record {
  id = id;
  table_id = table;
  booker_name = codes "Ann";
  booker_mobile = [];
  check_in = check_in;
  check_out = check_out;
  duration_minutes = 60;
  amount = pos 1500;
  is_paid = false;
  status = active;
  created_by = "s";
  created_at = ten;
}

-- The rows of the two bookings of the first table.
abbrev pub rows : List Row
rows = row "a" 1 1768023000000 1768026600000 ∷ row "b" 1 1768030200000 1768032000000 ∷ []

abbrev pub quiet : {A : Type 0} → Channel A
quiet = record { items = []; capacity = 8 }

abbrev pub venue : List Row → Venue
venue rs = record { rows = rs; config = none; tables = new_tables quiet quiet; timelines = quiet }

abbrev pub all_well : ℕ → Circumstances
all_well now = record {
  now = now;
  sync_now = now;
  reads_config = true;
  reads_row = true;
  reads_row_again = true;
  reads_overlap = true;
  writes = true;
  reads_timeline = true;
}

abbrev asked : ℕ → CreateInput
asked table = record {
  table_id = table;
  booker_name = codes "Cal";
  booker_mobile = [];
  check_in = at noon;
  check_out = at half_past_noon;
  amount = pos 750;
  is_paid = false;
}

-- A time that is taken.
taken :
    (handle_create zone
      (all_well ten)
      "c"
      (some (record (asked 1) { check_in = at (noon - 600000) }))
      "s"
      "staff"
      (venue rows)).0
    ≡ failed 409
unfolding handle_create then_write body_status check_create parse_times read_time minutes_between
    is_past_day overlap_check has_overlap overlaps is_excluded is_given some_by is_live
taken = refl

-- Two requests at the same time, for two tables, which write in the other order.
abbrev crowd : Crowd
crowd = record { venue = venue []; waiting = []; held = [] }

abbrev new_row : ℕ → String → Row
new_row table id = record (row id table noon half_past_noon) {
  booker_name = codes "Cal";
  duration_minutes = 30;
  amount = pos 750;
}

abbrev holds : ℕ → Held
holds table = record { table = table; write = inserts (new_row table "") }

abbrev first_written : Venue
first_written = written zone (all_well ten) "x" (inserts (new_row 2 "")) (venue [])

abbrev both_written : Crowd
both_written = record {
  venue = written zone (all_well ten) "y" (inserts (new_row 1 "")) first_written;
  waiting = [];
  held = [];
}

two_requests : CrowdRun zone crowd both_written
unfolding row_of_write is_free check_create parse_times read_time minutes_between is_past_day
    overlap_check has_overlap erase_idx get_elem? written write_create emit_timeline insert_row
    same_id config_read is_running overlaps is_excluded every some_by
two_requests =
    then_step
      (then_step
        (then_step
          (then_step still
            (locks_create (all_well ten) (asked 1) "s" "staff" (new_row 1 "") refl refl))
          (locks_create (all_well ten) (asked 2) "s" "staff" (new_row 2 "") refl refl))
        (writes 0 (holds 2) (all_well ten) "x" refl
          (record { of_rows = tt; of_waiting = tt; of_held = (refl, (refl, tt)) })))
      (writes 0 (holds 1) (all_well ten) "y" refl
        (record { of_rows = (refl, tt); of_waiting = tt; of_held = (refl, tt) }))

no_double_booking_example : ◌≡◌ {A = ℕ} 1 1
unfolding get_elem? written write_create emit_timeline insert_row is_running is_live
no_double_booking_example =
    no_double_booking crowd both_written noon 1 1 (new_row 1 "y") (new_row 1 "y") tt refl refl
      two_requests refl refl (refl, omega arith, omega arith) (refl, omega arith, omega arith) refl
