-- ===== src/Submission.antt =====
-- frontend/src/components/timeline/CreateBookingModal.jsx: `handleSubmit` and `handleConfirm`.
use gbc_smart_management.Base.{
  ℕ, zero, suc, ◌+◌, ◌-◌, ◌*◌, Bool, false, ◌&&◌, List, Option, none, some, ltb, if◌then◌else◌, ℤ,
  pos, negsuc, scale, Text, str_eq, is_blank, find_by,
}
use gbc_smart_management.Timeline.{Booking, end_time}
use gbc_smart_management.Slots.{slot_end}
use gbc_smart_management.BookingForm.{
  BookingData, Form, Props, Target, create, edit, format_time, parse_in, ◌>>=◌,
}

pub data SubmitError : Type 0 where
  missing_player : SubmitError
  too_short : SubmitError
  overlap : Text → Text → Text → SubmitError
  check_in_too_early : Text → SubmitError
  check_in_too_late : Text → SubmitError
  check_out_too_early : Text → SubmitError
  check_out_too_late : Text → SubmitError

-- What `handleSubmit` does to the state: it shows an error, or goes on to the summary.
pub data Outcome : Type 0 where
  rejected : SubmitError → Outcome
  summary : Outcome

-- The overlap condition, with the booking that is edited left out.
unfoldable pub conflicts : Booking → ℕ → ℕ → Booking → Bool
conflicts existing check_in_ms check_out_ms b =
    if str_eq b.booking_id existing.booking_id
    then false
    else ltb check_in_ms (end_time b) && ltb b.start_time check_out_ms

-- `handleSubmit` from the check for overlaps on.
unfoldable pub check_target : ℕ → List Booking → Target → ℕ → ℕ → Outcome
check_target zone bookings (edit existing) check_in_ms check_out_ms =
    elim (find_by (conflicts existing check_in_ms check_out_ms) bookings) [
      | none ↦ summary
      | some b ↦
          rejected
            (overlap b.player (format_time zone b.start_time) (format_time zone (end_time b)))
    ]
check_target zone bookings (create table s) check_in_ms check_out_ms =
    if ltb check_in_ms (s.start_timestamp - 15 * 60000)
    then rejected (check_in_too_early (format_time zone (s.start_timestamp - 15 * 60000)))
    else if ltb (slot_end s - 15 * 60000) check_in_ms
    then rejected (check_in_too_late (format_time zone (slot_end s - 15 * 60000)))
    else if ltb check_out_ms s.start_timestamp
    then rejected (check_out_too_early (format_time zone s.start_timestamp))
    else if ltb (slot_end s) check_out_ms
    then rejected (check_out_too_late (format_time zone (slot_end s)))
    else summary

abbrev pub next_day_if_earlier : ℕ → ℕ → ℕ
next_day_if_earlier check_in_ms check_out_ms =
    if ltb check_out_ms check_in_ms then check_out_ms + 86400000 else check_out_ms

-- `handleSubmit`. A check-out before the check-in on the next day too is a duration of 0 here, which
-- is as short as a negative one.
unfoldable pub handle_submit : Props → Form → Option Outcome
handle_submit p f = if is_blank f.player then some (rejected missing_player) else do
  check_in_ms ← parse_in p f.check_in
  out ← parse_in p f.check_out
  let check_out_ms = next_day_if_earlier check_in_ms out
  if ltb (check_out_ms - check_in_ms) (15 * 60000)
      then some (rejected too_short)
      else some (check_target p.zone p.table_bookings p.target check_in_ms check_out_ms)

-- `form.durationMins || 60`
abbrev pub or_hour : ℤ → ℤ
or_hour (pos zero) = pos 60
or_hour (pos (suc n)) = pos (suc n)
or_hour (negsuc n) = negsuc n

abbrev pub table_of : Target → ℕ
table_of (edit b) = b.table_id
table_of (create table s) = table

abbrev pub or_zero : Option ℤ → ℤ
or_zero none = pos 0
or_zero (some a) = a

-- `handleConfirm`: what it hands to `onConfirm`.
unfoldable pub handle_confirm : Props → Form → Option BookingData
handle_confirm p f = do
  check_in_ms ← parse_in p f.check_in
  some (record {
    table_id = table_of p.target;
    player = f.player;
    mobile = f.mobile;
    start_time = check_in_ms;
    duration = scale (or_hour f.duration_mins) 60000;
    amount = or_zero f.amount;
    paid = f.is_paid;
  })
