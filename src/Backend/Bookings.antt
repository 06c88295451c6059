-- ===== src/Backend/Bookings.antt =====
-- backend/internal/service/booking_service.go: a change of the bookings is two parts, what is done under
-- the lock of the table up to the writing of the row, and the writing with what follows.
use gbc_smart_management.Base.{
  ℕ, ◌+◌, ◌-◌, ◌/◌, ltb, leb, ◌==◌, Bool, true, false, not, ◌&&◌, ◌||◌, List, Option, none, some,
  String, str_eq, Text, ℤ, if◌then◌else◌,
}
use gbc_smart_management.Backend.Rows.{
  Row, active, cancelled, is_live, has_overlap, find_by_id, insert_row, save_row, find_timeline,
}
use gbc_smart_management.Backend.Days.{
  VenueConfig, config_or_default, day_start, day_end, venue_today,
}
use gbc_smart_management.Backend.Tables.{
  Channel, offer, Tables, TableCell, live_of, get_table, activate_table, deactivate_table,
  update_current_booking,
}

pub record Venue : Type 0 where
  pub rows : List Row
  pub config : Option VenueConfig
  pub tables : Tables
  pub timelines : Channel (List Row)

-- A time in the body of a request: a missing one is the empty text.
pub data TimeField : Type 0 where
  missing : TimeField
  malformed : TimeField
  at : ℕ → TimeField

pub record CreateInput : Type 0 where
  pub table_id : ℕ
  pub booker_name : Text
  pub booker_mobile : Text
  pub check_in : TimeField
  pub check_out : TimeField
  pub amount : ℤ
  pub is_paid : Bool

pub record UpdateInput : Type 0 where
  pub booker_name : Option Text
  pub booker_mobile : Option Text
  pub check_in : TimeField
  pub check_out : TimeField
  pub amount : Option ℤ
  pub is_paid : Option Bool

-- Which of a request's calls of the database succeed, and its readings of the clock.
pub record Circumstances : Type 0 where
  pub now : ℕ
  pub sync_now : ℕ
  pub reads_config : Bool
  pub reads_row : Bool
  pub reads_row_again : Bool
  pub reads_overlap : Bool
  pub writes : Bool
  pub reads_timeline : Bool

-- A status with an error, or a value. `ValidationError` has its own status, and all else is 500.
pub data Answer (A : Type 0) : Type 0 where
  failed : ℕ → Answer A
  ok : A → Answer A

-- The early return of an error.
infixl 5 ◌&>◌
abbrev pub ◌&>◌ : {A B : Type 0} → Answer A → (A → Answer B) → Answer B
failed status &> rest = failed status
ok value &> rest = rest value

unfoldable pub config_read : Circumstances → Venue → VenueConfig
config_read e s = config_or_default (if e.reads_config then s.config else none)

-- `GetTimeline` and `GetTodayTimeline`
unfoldable pub timeline_of_day : ℕ → ℕ → VenueConfig → Venue → List Row
timeline_of_day zone date c s = find_timeline (day_start zone date c) (day_end zone date c) s.rows

-- `emitTimelineUpdate`
unfoldable pub emit_timeline : ℕ → Circumstances → Venue → Venue
emit_timeline zone e s =
    let c = config_read e s in
    if e.reads_timeline
    then record s {
      timelines = offer (timeline_of_day zone (venue_today zone c e.sync_now) c s) s.timelines;
    }
    else s

-- `parseTimes`; the duration is rounded to minutes, half a minute upwards.
unfoldable pub minutes_between : ℕ → ℕ → ℕ
minutes_between check_in check_out = (check_out - check_in + 30000) / 60000

unfoldable pub read_time : TimeField → Answer ℕ
read_time missing = failed 400
read_time malformed = failed 400
read_time (at t) = ok t

unfoldable pub parse_times : TimeField → TimeField → Answer (ℕ × ℕ)
parse_times check_in check_out = read_time check_in &> λ start. read_time check_out &> λ end.
    if minutes_between start end == 0 then failed 400 else ok (start, end)

-- The restriction by the role: the day is that of the UTC clock.
unfoldable pub is_past_day : ℕ → Circumstances → String → ℕ → Venue → Bool
is_past_day zone e role check_in s =
    ltb check_in e.now
    && not (str_eq role "admin")
    && ltb check_in (day_start zone (e.now / 86400000) (config_read e s))

-- The refusal of a time that is taken.
unfoldable pub overlap_check : Circumstances → Bool → Row → Answer Row
overlap_check e taken r =
    if e.reads_overlap then (if taken then failed 409 else ok r) else failed 500

-- `CreateBooking` up to the insertion. The row has no id yet.
unfoldable pub check_create : ℕ → Circumstances → CreateInput → String → String → Venue → Answer Row
check_create zone e d created_by role s = parse_times d.check_in d.check_out &> λ times.
    if is_past_day zone e role times.0 s
    then failed 400
    else overlap_check e (has_overlap d.table_id times.0 times.1 none s.rows) (record {
      id = "";
      table_id = d.table_id;
      booker_name = d.booker_name;
      booker_mobile = d.booker_mobile;
      check_in = times.0;
      check_out = times.1;
      duration_minutes = minutes_between times.0 times.1;
      amount = d.amount;
      is_paid = d.is_paid;
      status = active;
      created_by = created_by;
      created_at = e.now;
    })

unfoldable pub is_running : ℕ → Row → Bool
is_running now r = leb r.check_in now && ltb now r.check_out

-- The rest of it, with the id that the insertion gives.
unfoldable pub write_create : ℕ → Circumstances → String → Row → Venue → Answer Row × Venue
write_create zone e id r s =
    let b : Row = record r { id = id } in
    let stored : Venue = record s { rows = insert_row b s.rows } in
    let shown : Venue = record stored { tables = activate_table b.table_id (live_of b) s.tables } in
    if e.writes
    then (ok b, emit_timeline zone e (if is_running e.sync_now b then shown else stored))
    else (failed 500, s)

-- `FindByID` at the start of a change, and again under the lock, where an error is "not found" too.
unfoldable pub live_row : Option Row → Answer Row
live_row none = failed 404
live_row (some r) = if is_live r.status then ok r else failed 404

unfoldable pub fetch_row : Circumstances → String → Venue → Answer Row
fetch_row e id s = if e.reads_row then live_row (find_by_id id s.rows) else failed 500

unfoldable pub fetch_row_again : Circumstances → String → Venue → Answer Row
fetch_row_again e id s = if e.reads_row_again then live_row (find_by_id id s.rows) else failed 404

-- The new times of `UpdateBooking`.
unfoldable pub time_or : ℕ → TimeField → Answer ℕ
time_or old missing = ok old
time_or old malformed = failed 400
time_or old (at t) = ok t

unfoldable pub is_given : TimeField → Bool
is_given missing = false
is_given malformed = true
is_given (at t) = true

unfoldable pub move_row : Circumstances → String → UpdateInput → Row → Venue → Answer Row
move_row e id d r s = time_or r.check_in d.check_in &> λ start.
    time_or r.check_out d.check_out &> λ end.
    if ltb start end
    then overlap_check e (has_overlap r.table_id start end (some id) s.rows) (record r {
      check_in = start;
      check_out = end;
      duration_minutes = minutes_between start end;
    })
    else failed 400

unfoldable pub value_or {ℓ} : {A : Type ℓ} → A → Option A → A
value_or old none = old
value_or old (some a) = a

unfoldable pub rewritten : UpdateInput → Row → Row
rewritten d r = record r {
  booker_name = value_or r.booker_name d.booker_name;
  booker_mobile = value_or r.booker_mobile d.booker_mobile;
  amount = value_or r.amount d.amount;
  is_paid = value_or r.is_paid d.is_paid;
}

-- `UpdateBooking` under the lock, up to the writing.
unfoldable pub check_update : Circumstances → String → UpdateInput → Venue → Answer Row
check_update e id d s = fetch_row_again e id s &> λ fresh.
    (if is_given d.check_out || is_given d.check_in then move_row e id d fresh s else ok fresh)
    &> λ moved. ok (rewritten d moved)

unfoldable pub write_update : ℕ → Circumstances → Row → Venue → Answer Row × Venue
write_update zone e r s =
    let stored : Venue = record s { rows = save_row r s.rows } in
    let shown : Venue = record stored {
      tables = update_current_booking r.table_id (live_of r) s.tables;
    } in
    if e.writes
    then (ok r, emit_timeline zone e (if is_running e.sync_now r then shown else stored))
    else (failed 500, s)

-- `CancelBooking` likewise.
unfoldable pub check_cancel : Circumstances → String → Venue → Answer Row
check_cancel e id s = fetch_row_again e id s &> λ fresh. ok (record fresh { status = cancelled })

unfoldable pub shows_booking : String → TableCell → Bool
shows_booking id t = elim t.current [ none ↦ false | some b ↦ str_eq b.booking_id id ]

unfoldable pub leave_table : Row → Tables → Tables
leave_table r tables = elim (get_table r.table_id tables) [
  | none ↦ tables
  | some t ↦ if shows_booking r.id t then deactivate_table r.table_id tables else tables
]

unfoldable pub write_cancel : ℕ → Circumstances → Row → Venue → Answer Row × Venue
write_cancel zone e r s =
    let stored : Venue = record s { rows = save_row r s.rows } in
    let left : Venue = record stored { tables = leave_table r s.tables } in
    if e.writes
    then (ok r, emit_timeline zone e (if is_running e.sync_now r then left else stored))
    else (failed 500, s)
