-- ===== src/Tests/Scheduler.antt =====
-- backend/internal/scheduler
use gbc_smart_management.Base.{
  ℕ, ◌+◌, ◌≡◌, ◌<◌, ◌⊎◌, refl, arith, [], ◌∷◌, none, some, true, inl, inr, some_by, find_by,
}
use gbc_smart_management.Backend.Rows.{
  Row, is_live, has_overlap, overlaps, is_excluded, same_id, find_current, find_by_id, is_current,
}
use gbc_smart_management.Backend.Tables.{
  new_tables, new_cell, occupied_by, live_of, activate_table, put_cell, broadcast, send_command,
}
use gbc_smart_management.Backend.Bookings.{
  Venue, UpdateInput, at, ok, minutes_between, overlap_check, fetch_row, fetch_row_again, live_row,
  check_update, write_update, move_row, time_or, is_given, rewritten, value_or,
}
use gbc_smart_management.Backend.Handlers.{handle_update, then_write}
use gbc_smart_management.Backend.Concurrent.Rows.{AllApart, conflicts}
use gbc_smart_management.Backend.Scheduler.{Scheduler, Timer, Reads, reconcile, handle_end_fired}
use gbc_smart_management.Backend.Scheduler.Handover.{next_booking_waits_for_tick}
use gbc_smart_management.Backend.Scheduler.Settling.{Shows, reconcile_twice-Shows}
use gbc_smart_management.Backend.Scheduler.Moved.{moved_booking_keeps_table}
use gbc_smart_management.Tests.Data.{zone, noon, half_past_noon}
use gbc_smart_management.Tests.Backend.{row, rows, venue, all_well, quiet}

abbrev answering : ℕ → Reads
answering i = record {
  reads_row = true;
  reads_current = true;
  reads_current_again = true;
  reads_next = true;
}

abbrev scheduler : Venue → Scheduler
scheduler v = record { venue = v; start_timer = λ i. none; end_timer = λ i. none }

abbrev after_eleven : ℕ
after_eleven = 1768023060000

rows-AllApart : AllApart rows
unfolding conflicts is_live
rows-AllApart = ((record { other = refl; apart = refl }, tt), (tt, tt))

abbrev next_tick : ℕ
next_tick = 1768023065000

reconcile_twice-Shows_example : Shows (find_current 1 next_tick rows) (
    (reconcile next_tick answering
        (reconcile after_eleven answering (scheduler (venue rows)))).venue.tables.cell
      1)
unfolding new_tables new_cell find_current find_by is_current is_live
reconcile_twice-Shows_example =
    reconcile_twice-Shows after_eleven next_tick 1 answering answering (scheduler (venue rows))
      (omega arith) (omega arith) (omega arith) (λ j. refl) (λ j. refl) rows-AllApart
      (refl, (refl, tt)) (inl (refl, refl)) (inr (inr refl))

-- The first booking runs, and is moved to noon.
abbrev running : Venue
running = record (venue rows) {
  tables =
      activate_table 1 (live_of (row "a" 1 1768023000000 1768026600000)) (new_tables quiet quiet);
}

abbrev to_noon : UpdateInput
to_noon = record {
  booker_name = none;
  booker_mobile = none;
  check_in = at noon;
  check_out = at half_past_noon;
  amount = none;
  is_paid = none;
}

abbrev moved : Row
moved = record (row "a" 1 noon half_past_noon) { duration_minutes = 30 }

moved_lem : (handle_update zone (all_well after_eleven) "a" (some to_noon) running).0 ≡ ok moved
unfolding handle_update then_write fetch_row live_row find_by_id find_by same_id check_update
    fetch_row_again move_row time_or is_given overlap_check has_overlap overlaps is_excluded
    minutes_between rewritten value_or write_update some_by is_live
moved_lem = refl

moved_booking_keeps_table_example :
    (reconcile after_eleven answering (
        scheduler
          (handle_update zone
            (all_well after_eleven)
            "a"
            (some to_noon)
            running).1)).venue.tables.cell
      1
    ≡ running.tables.cell 1
unfolding activate_table put_cell broadcast send_command live_of occupied_by
moved_booking_keeps_table_example =
    moved_booking_keeps_table zone (all_well after_eleven) "a" to_noon running moved
      (scheduler (handle_update zone (all_well after_eleven) "a" (some to_noon) running).1)
      answering after_eleven 1 (live_of (row "a" 1 1768023000000 1768026600000)) moved_lem
      (omega arith) (omega arith) (omega arith) refl refl (omega arith) (λ j. refl) refl

-- The second booking starts with the end of the first, whose timer fires.
abbrev at_end : ℕ
at_end = 1768026600000

abbrev following : Row
following = row "c" 1 at_end 1768030200000

abbrev back_to_back : Venue
back_to_back = record (venue (row "a" 1 1768023000000 at_end ∷ following ∷ [])) {
  tables = activate_table 1 (live_of (row "a" 1 1768023000000 at_end)) (new_tables quiet quiet);
}

back_to_back-AllApart : AllApart back_to_back.rows
unfolding conflicts is_live
back_to_back-AllApart = ((record { other = refl; apart = refl }, tt), (tt, tt))

next_booking_waits_for_tick_example :
    let after = handle_end_fired at_end (answering 1) 1 "a" (scheduler back_to_back) in
    Shows none (after.venue.tables.cell 1)
    × ((after.start_timer 1 ≡ none)
        ⊎ ((t : Timer) × (after.start_timer 1 ≡ some t) × (at_end < t.due)))
    × Shows (some following) ((reconcile (at_end + 4000) answering after).venue.tables.cell 1)
unfolding activate_table put_cell broadcast send_command live_of occupied_by is_current is_live
next_booking_waits_for_tick_example =
    next_booking_waits_for_tick at_end (at_end + 4000) 1 (answering 1) answering "a"
      (scheduler back_to_back) (live_of (row "a" 1 1768023000000 at_end)) following (omega arith)
      (omega arith) refl refl refl refl back_to_back-AllApart (inr (inl refl)) refl (omega arith)
      (omega arith) (λ j. refl)
