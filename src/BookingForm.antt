-- ===== src/BookingForm.antt =====
-- frontend/src/components/timeline/CreateBookingModal.jsx: the form that makes or edits a booking.
-- A number that would be NaN is `none`: a handler that would store one returns `none`.
pub mod Times
pub mod Agreement
pub mod Session
pub mod Submit
pub mod Faults
pub mod Bookable
use gbc_smart_management.Base.{
  ℕ, zero, suc, ◌+◌, ◌-◌, ◌*◌, ◌/◌, ◌%◌, Bool, true, false, not, ◌&&◌, ◌||◌, List, [], ◌∷◌, ◌++◌,
  Option, none, some, ltb, leb, ◌==◌, if◌then◌else◌, ℤ, pos, negsuc, ◌+ℤ◌, sub_ℕ, scale, floor_div,
  filter_by, Text, two_digits, number, split, is_empty,
}
use gbc_smart_management.Calendar.{get_hours, get_minutes, set_hours}
use gbc_smart_management.Timeline.{Booking, end_time, start_of_day}
use gbc_smart_management.Slots.{Slot}

-- What the dialog is open for: `existingBooking`, or else `slot` with the table that it is of.
pub data Target : Type 0 where
  edit : Booking → Target
  create : ℕ → Slot → Target

-- The properties of the component that its handlers read; the rate is in hundredths.
pub record Props : Type 0 where
  pub zone : ℕ
  pub open_hour : ℕ
  pub hourly_rate : ℕ
  pub target : Target
  pub table_bookings : List Booking

-- The amount is what `parseFloat` reads in the field, in hundredths; `none` is NaN.
pub record Form : Type 0 where
  pub check_in : Text
  pub check_out : Text
  pub duration_mins : ℤ
  pub player : Text
  pub mobile : Text
  pub amount : Option ℤ
  pub is_paid : Bool

-- What the summary, and then the server, is given.
pub record BookingData : Type 0 where
  pub table_id : ℕ
  pub player : Text
  pub mobile : Text
  pub start_time : ℕ
  pub duration : ℤ
  pub amount : ℤ
  pub paid : Bool

infixl 5 ◌>>=◌
abbrev pub ◌>>=◌ {ℓ κ} : {A : Type ℓ} {B : Type κ} → Option A → (A → Option B) → Option B
none >>= f = none
some a >>= f = f a

-- `getBaseMs`
unfoldable pub base_ms : Target → ℕ
base_ms (edit b) = b.start_time
base_ms (create table s) = s.start_timestamp

-- `HH:MM`
abbrev pub time_text : ℕ → ℕ → Text
time_text h m = two_digits h ++ b':' ∷ two_digits m

-- `formatTimeForInput`
unfoldable pub format_time : ℕ → ℕ → Text
format_time zone ms = time_text (get_hours zone ms) (get_minutes zone ms)

-- The time of the business day of `base` at which the clock shows `hh:mm`.
unfoldable pub time_on_day : ℕ → ℕ → ℕ → ℕ → ℕ → ℕ
time_on_day zone open_hour base hh mm =
    let d = set_hours zone (start_of_day zone base open_hour) hh mm in
    if ltb hh open_hour then d + 86400000 else d

-- `const [hh, mm] = parts`: a part that is missing is undefined, and a time with it is NaN.
time_of_parts : ℕ → ℕ → ℕ → List Text → Option ℕ
time_of_parts zone open_hour base [] = none
time_of_parts zone open_hour base (hh ∷ []) = none
time_of_parts zone open_hour base (hh ∷ mm ∷ rest) = do
  h ← number hh
  m ← number mm
  some (time_on_day zone open_hour base h m)

-- `parseTimeFromInput`
unfoldable pub parse_time : ℕ → ℕ → Text → ℕ → Option ℕ
unfolding time_of_parts
parse_time zone open_hour [] base = some 0
parse_time zone open_hour (c ∷ cs) base = time_of_parts zone open_hour base (split b':' (c ∷ cs))

abbrev pub parse_in : Props → Text → Option ℕ
parse_in p time = parse_time p.zone p.open_hour time (base_ms p.target)

-- `((durMins / 60) * HOURLY_RATE).toFixed(2)` in hundredths, half a hundredth rounded away from 0.
unfoldable pub price : ℕ → ℤ → ℤ
price rate (pos d) = pos ((d * rate + 30) / 60)
price rate (negsuc d) = sub_ℕ 0 ((suc d * rate + 30) / 60)

-- The effect that fills the form when the dialog opens; `Math.round` of a half goes up.
unfoldable pub initial_form : ℕ → ℕ → Target → Form
initial_form zone hourly_rate (edit b) = record {
  check_in = format_time zone b.start_time;
  check_out = format_time zone (end_time b);
  duration_mins = pos ((b.duration + 30000) / 60000);
  player = b.player;
  mobile = b.mobile;
  amount = some (pos b.amount);
  is_paid = b.paid;
}
initial_form zone hourly_rate (create table s) = record {
  check_in = format_time zone s.start_timestamp;
  check_out = format_time zone (s.start_timestamp + 60 * 60000);
  duration_mins = pos 60;
  player = [];
  mobile = [];
  amount = some (pos hourly_rate);
  is_paid = false;
}

abbrev pub is_positive : ℤ → Bool
is_positive (pos zero) = false
is_positive (pos (suc n)) = true
is_positive (negsuc n) = false

-- `new Date(start + mins * 60000)` for positive minutes.
abbrev pub after_mins : ℕ → ℤ → ℕ
after_mins start (pos d) = start + d * 60000
after_mins start (negsuc d) = start - suc d * 60000

-- `handleCheckInChange`
unfoldable pub handle_check_in_change : Props → Form → Text → Option Form
handle_check_in_change p f val = do
  new_check_in ← parse_in p val
  if is_positive f.duration_mins
      then some (record f {
        check_in = val;
        check_out = format_time p.zone (after_mins new_check_in f.duration_mins);
      })
      else some (record f { check_in = val })

-- The argument of `handleDurationChange`: one of the four buttons, or hours and minutes.
pub data DurationInput : Type 0 where
  mins : ℕ → DurationInput
  parts : ℤ → ℤ → DurationInput

unfoldable pub dur_mins_of : DurationInput → ℤ
dur_mins_of (mins n) = pos n
dur_mins_of (parts h m) = scale h 60 +ℤ m

-- `handleDurationChange`
unfoldable pub handle_duration_change : Props → Form → DurationInput → Option Form
handle_duration_change p f val =
    let dur_mins = dur_mins_of val in
    let f' : Form = record f { duration_mins = dur_mins } in
    if is_positive dur_mins && not (is_empty f.check_in)
    then (parse_in p f.check_in >>= λ check_in_ms. some (record f' {
      check_out = format_time p.zone (after_mins check_in_ms dur_mins);
      amount = some (price p.hourly_rate dur_mins);
    }))
    else some f'

-- The minutes from a check-in to a check-out, which is on the next day if it would be earlier.
abbrev pub mins_between : ℕ → ℕ → ℤ
mins_between check_in_ms check_out_ms =
    if ltb check_out_ms check_in_ms
    then (if ltb (check_out_ms + 86400000) check_in_ms
        then sub_ℕ 0 ((check_in_ms - (check_out_ms + 86400000)) / 60000)
        else pos ((check_out_ms + 86400000 - check_in_ms) / 60000))
    else pos ((check_out_ms - check_in_ms) / 60000)

-- `handleCheckOutChange`
unfoldable pub handle_check_out_change : Props → Form → Text → Option Form
handle_check_out_change p f val = do
  new_check_out ← parse_in p val
  if is_empty f.check_in
      then some (record f { check_out = val })
      else (parse_in p f.check_in >>= λ check_in_ms. some (record f {
        check_out = val;
        duration_mins = mins_between check_in_ms new_check_out;
        amount = some (price p.hourly_rate (mins_between check_in_ms new_check_out));
      }))

-- What the fields of the form send on a change. The two fields of the duration keep the other part.
pub data Edit : Type 0 where
  set_check_in : Text → Edit
  set_check_out : Text → Edit
  set_hours_part : ℤ → Edit
  set_minutes_part : ℤ → Edit
  choose_mins : ℕ → Edit
  set_player : Text → Edit
  set_mobile : Text → Edit
  set_amount : Option ℤ → Edit
  set_is_paid : Bool → Edit

-- `x % n`, which has the sign of `x`.
abbrev pub remainder : ℤ → ℕ → ℤ
remainder (pos x) n = pos (x % n)
remainder (negsuc x) n = sub_ℕ 0 (suc x % n)

-- `e.target.value.replace(/[^0-9+]/g, '')`
abbrev pub is_mobile_char : ℕ → Bool
is_mobile_char c = (leb b'0' c && leb c b'9') || c == b'+'

-- The `onChange` handlers of the fields, and `onClick` of the four buttons.
unfoldable pub apply_edit : Props → Form → Edit → Option Form
apply_edit p f (set_check_in val) = handle_check_in_change p f val
apply_edit p f (set_check_out val) = handle_check_out_change p f val
apply_edit p f (set_hours_part h) =
    handle_duration_change p f (parts h (remainder f.duration_mins 60))
apply_edit p f (set_minutes_part m) =
    handle_duration_change p f (parts (floor_div f.duration_mins 60) m)
apply_edit p f (choose_mins n) = handle_duration_change p f (mins n)
apply_edit p f (set_player v) = some (record f { player = v })
apply_edit p f (set_mobile v) = some (record f { mobile = filter_by is_mobile_char v })
apply_edit p f (set_amount v) = some (record f { amount = v })
apply_edit p f (set_is_paid v) = some (record f { is_paid = v })
