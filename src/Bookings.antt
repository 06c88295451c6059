-- ===== src/Bookings.antt =====
-- frontend/src/pages/Bookings.jsx: the rows of the timeline and the day that is shown.
pub mod Dialog
pub mod Answers
use gbc_smart_management.Base.{
  ℕ, ◌-◌, ◌==◌, suc, Bool, true, false, not, if◌then◌else◌, List, [], map, Option, none, some,
  String, str_eq, codes, is_empty, filter_by, length,
}
use gbc_smart_management.Timeline.{Booking}
use gbc_smart_management.Store.{RawBooking, TableState}

-- `timelineBookings`. A booking that would end before it starts lasts no time here.
unfoldable pub to_booking : RawBooking → Booking
to_booking b = record {
  booking_id = b.id;
  table_id = b.table_id;
  player = if is_empty b.booker_name then codes "Unknown" else b.booker_name;
  mobile = b.booker_mobile;
  start_time = b.check_in_time;
  duration = b.check_out_time - b.check_in_time;
  amount = b.amount;
  paid = b.is_paid;
}

unfoldable pub timeline_bookings : List RawBooking → List Booking
timeline_bookings rows = map to_booking rows

-- The `tableBookings` of the form. A table 0 counts as none, as in `||`.
unfoldable pub form_table : Option ℕ → Option Booking → Option ℕ
form_table none none = none
form_table none (some b) = some b.table_id
form_table (some t) none = if t == 0 then none else some t
form_table (some t) (some b) = if t == 0 then some b.table_id else some t

unfoldable pub table_bookings_of : Option ℕ → List Booking → List Booking
table_bookings_of none bs = []
table_bookings_of (some t) bs = filter_by (λ b. b.table_id == t) bs

-- `freeTablesCount`
unfoldable pub free_tables_count : List TableState → ℕ
free_tables_count tables = length (filter_by (λ t. not (str_eq t.status "BUSY")) tables)

-- The day that is shown. A fetch is one run of the effect; `mounted` is the run that was not cleaned
-- up, whose `isMounted` is true.
pub record Fetch : Type 0 where
  pub fetch_id : ℕ
  pub date : String

pub record Day : Type 0 where
  pub today : String
  pub selected_date : String
  pub fetched_timeline : List RawBooking
  pub is_fetching : Bool
  pub mounted : Option Fetch
  pub next_fetch : ℕ

unfoldable pub initial_day : String → Day
initial_day today = record {
  today = today;
  selected_date = today;
  fetched_timeline = [];
  is_fetching = false;
  mounted = none;
  next_fetch = 0;
}

-- `setSelectedDate`: the page draws the other date at once.
unfoldable pub set_selected_date : String → Day → Day
set_selected_date date d = record d { selected_date = date }

-- The effect of the date, behind that drawing: the run before it is cleaned up.
unfoldable pub run_date_effect : Day → Day
run_date_effect d =
    if str_eq d.selected_date d.today then record d { mounted = none } else record d {
      is_fetching = true;
      mounted = some (record { fetch_id = d.next_fetch; date = d.selected_date });
      next_fetch = suc d.next_fetch;
    }

-- What a request brings: the rows, `null`, or an error.
pub data Reply : Type 0 where
  rows : List RawBooking → Reply
  no_rows : Reply
  failure : Reply

unfoldable pub rows_of : Reply → List RawBooking
rows_of (rows r) = r
rows_of no_rows = []
rows_of failure = []

abbrev pub is_mounted : Option Fetch → ℕ → Bool
is_mounted none id = false
is_mounted (some m) id = m.fetch_id == id

-- The end of `fetchTimeline`, in the run of the effect with this number.
unfoldable pub fetch_ends : ℕ → Reply → Day → Day
fetch_ends id reply d =
    if is_mounted d.mounted id
    then record d { fetched_timeline = rows_of reply; is_fetching = false }
    else d

-- `activeRawTimeline`, and whether the timeline is drawn, once `showTimeline` is set.
unfoldable pub active_timeline : Day → List RawBooking → List RawBooking
active_timeline d live = if str_eq d.selected_date d.today then live else d.fetched_timeline

unfoldable pub is_drawn : Day → Bool
is_drawn d = not d.is_fetching
