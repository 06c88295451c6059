-- ===== src/Backend/Scheduler.antt =====
-- backend/internal/scheduler/scheduler.go: the timers at the start and the end of a booking, and the
-- tick that puts right what they have missed. A timer is the booking it is for and when it is due.
pub mod Tick
pub mod Settling
pub mod Moved
pub mod Handover
use gbc_smart_management.Base.{
  ℕ, max, leb, ltb, ◌==◌, Bool, true, false, not, ◌&&◌, Option, none, some, String, str_eq,
  if◌then◌else◌,
}
use gbc_smart_management.Backend.Rows.{Row, is_live, find_by_id, find_current, find_next_upcoming}
use gbc_smart_management.Backend.Tables.{
  Tables, TableCell, Occupancy, available, busy, LiveBooking, live_of, get_table, activate_table,
  deactivate_table,
}
use gbc_smart_management.Backend.Bookings.{Venue, is_running, shows_booking}

pub record Timer : Type 0 where
  pub booking_id : String
  pub due : ℕ

pub record Scheduler : Type 0 where
  pub venue : Venue
  pub start_timer : ℕ → Option Timer
  pub end_timer : ℕ → Option Timer

-- Which calls of the database succeed; the last two are those of `RescheduleTable`.
pub record Reads : Type 0 where
  pub reads_row : Bool
  pub reads_current : Bool
  pub reads_current_again : Bool
  pub reads_next : Bool

abbrev pub put {ℓ} : {A : Type ℓ} → ℕ → A → (ℕ → A) → ℕ → A
put i a f j = if j == i then a else f j

-- `setStartTimer` and `setEndTimer`, at the time `now`: a time that is past is now.
unfoldable pub set_start_timer : ℕ → ℕ → Row → Scheduler → Scheduler
set_start_timer now i r s = record s {
  start_timer = put i (some (record { booking_id = r.id; due = max now r.check_in })) s.start_timer;
}

unfoldable pub set_end_timer : ℕ → ℕ → Row → Scheduler → Scheduler
set_end_timer now i r s = record s {
  end_timer = put i (some (record { booking_id = r.id; due = max now r.check_out })) s.end_timer;
}

unfoldable pub clear_table_timers : ℕ → Scheduler → Scheduler
clear_table_timers i s = record s {
  start_timer = put i none s.start_timer;
  end_timer = put i none s.end_timer;
}

-- The start of the next booking, if there is one and the database answers.
unfoldable pub schedule_next : ℕ → ℕ → Bool → Scheduler → Scheduler
schedule_next now i reads s = elim (if reads then find_next_upcoming i now s.venue.rows else none) [
  | none ↦ s
  | some r ↦ set_start_timer now i r s
]

-- `RescheduleTable`
unfoldable pub reschedule_table : ℕ → Reads → ℕ → Scheduler → Scheduler
reschedule_table now e i s =
    let cleared = clear_table_timers i s in
    if e.reads_current_again
    then elim (find_current i now s.venue.rows) [
      | some r ↦ set_end_timer now i r cleared
      | none ↦ schedule_next now i e.reads_next cleared
    ]
    else cleared

unfoldable pub init_all : ℕ → (ℕ → Reads) → Scheduler → Scheduler
init_all now e s =
    reschedule_table now (e 4) 4
      (reschedule_table now (e 3) 3 (reschedule_table now (e 2) 2 (reschedule_table now (e 1) 1 s)))

unfoldable pub with_tables : Tables → Scheduler → Scheduler
with_tables tables s = record s { venue = record (s.venue) { tables = tables } }

-- `handleStartFired`
unfoldable pub start_booking : ℕ → Reads → ℕ → Row → Scheduler → Scheduler
start_booking now e i r s =
    if is_live r.status && is_running now r
    then set_end_timer now i r (with_tables (activate_table i (live_of r) s.venue.tables) s)
    else reschedule_table now e i s

unfoldable pub handle_start_fired : ℕ → Reads → ℕ → String → Scheduler → Scheduler
handle_start_fired now e i id s =
    let fired : Scheduler = record s { start_timer = put i none s.start_timer } in
    if e.reads_row
    then elim (find_by_id id s.venue.rows) [
      | none ↦ reschedule_table now e i fired
      | some r ↦ start_booking now e i r fired
    ]
    else fired

-- `handleEndFired`
unfoldable pub is_busy : Occupancy → Bool
is_busy available = false
is_busy busy = true

unfoldable pub end_booking : ℕ → String → Tables → Tables
end_booking i id tables = elim (get_table i tables) [
  | none ↦ tables
  | some t ↦ if is_busy t.occupancy && shows_booking id t then deactivate_table i tables else tables
]

unfoldable pub handle_end_fired : ℕ → Reads → ℕ → String → Scheduler → Scheduler
handle_end_fired now e i id s =
    let fired : Scheduler = record s { end_timer = put i none s.end_timer } in
    schedule_next now i e.reads_next (with_tables (end_booking i id s.venue.tables) fired)

-- `reconcile`, of one table: it is busy with a booking, or it is not.
unfoldable pub expire : ℕ → Reads → ℕ → LiveBooking → Scheduler → Scheduler
expire now e i b s =
    if leb b.check_out now
    then reschedule_table now e i (with_tables (deactivate_table i s.venue.tables) s)
    else s

unfoldable pub catch_up : ℕ → Reads → ℕ → Scheduler → Scheduler
catch_up now e i s = elim (if e.reads_current then find_current i now s.venue.rows else none) [
  | none ↦ s
  | some r ↦ reschedule_table now e i (with_tables (activate_table i (live_of r) s.venue.tables) s)
]

unfoldable pub reconcile_as : ℕ → Reads → ℕ → Occupancy → Option LiveBooking → Scheduler → Scheduler
reconcile_as now e i available current s = catch_up now e i s
reconcile_as now e i busy none s = s
reconcile_as now e i busy (some b) s = expire now e i b s

unfoldable pub reconcile_table : ℕ → Reads → ℕ → Scheduler → Scheduler
reconcile_table now e i s = elim (get_table i s.venue.tables) [
  | none ↦ s
  | some t ↦ reconcile_as now e i t.occupancy t.current s
]

unfoldable pub reconcile : ℕ → (ℕ → Reads) → Scheduler → Scheduler
reconcile now e s =
    reconcile_table now (e 4) 4
      (reconcile_table now (e 3) 3 (reconcile_table now (e 2) 2 (reconcile_table now (e 1) 1 s)))

-- `StopAll`
unfoldable pub stop_all : Scheduler → Scheduler
stop_all s = record s { start_timer = λ i. none; end_timer = λ i. none }
