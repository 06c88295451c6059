-- ===== src/Tests/BookingForm.antt =====
-- CreateBookingModal.jsx
use gbc_smart_management.Base.{
  Any, ◌⊎◌, inl, All, ◌+◌, ◌*◌, ◌≤◌, ◌≡◌, ◌↔◌, refl, arith, List, [], ◌∷◌, some, false, codes, pos,
  is_blank, two_digits, number, split, find_by,
}
use gbc_smart_management.Calendar.{whole_minute}
use gbc_smart_management.Timeline.{end_time, start_of_day}
use gbc_smart_management.Slots.{
  Slot, free_slots, scan_bookings, add_slot_if_valid, sort_bookings, insert_booking,
}
use gbc_smart_management.Api.{create_booking}
use gbc_smart_management.BookingForm.{
  Props, Form, edit, create, handle_duration_change, Edit, choose_mins, set_player, apply_edit,
  base_ms, parse_time, format_time, time_on_day, initial_form, mins, dur_mins_of,
}
use gbc_smart_management.Submission.{
  summary, rejected, overlap, check_target, handle_submit, conflicts,
}
use gbc_smart_management.BookingForm.Times
use gbc_smart_management.BookingForm.Agreement.{IsRegular, Agrees}
use gbc_smart_management.BookingForm.Session
use gbc_smart_management.BookingForm.Session.{run_edits, IsSafeRun}
use gbc_smart_management.BookingForm.Submit
use gbc_smart_management.BookingForm.Submit.{Fits}
use gbc_smart_management.BookingForm.Bookable
use gbc_smart_management.BookingForm.Bookable.{Books, slot_props}
use gbc_smart_management.FormDialog.{open_dialog, submitted_as}
use gbc_smart_management.FormDialog.Sessions
use gbc_smart_management.FormDialog.Sessions.{ConfirmsFitting, opened, and_then, edits, submits}
use gbc_smart_management.BookingForm.Faults
use gbc_smart_management.BookingForm.Faults.{Confirms}
use gbc_smart_management.Tests.Data.{zone, noon, half_past_noon, booking_a, bookings}

abbrev pub free_hour : Slot
free_hour = record { start_timestamp = noon; duration_ms = 3600000 }

abbrev creating : Props
creating = record {
  zone = zone;
  open_hour = 10;
  hourly_rate = 1500;
  target = create 1 free_hour;
  table_bookings = bookings;
}

abbrev editing : Props
editing = record creating { target = edit booking_a }

-- The form that opens on the free hour, with a name.
abbrev new_form : Form
new_form = record {
  check_in = codes "12:00";
  check_out = codes "13:00";
  duration_mins = pos 60;
  player = codes "Cal";
  mobile = [];
  amount = some (pos 1500);
  is_paid = false;
}

creating-IsRegular : IsRegular creating
unfolding base_ms
creating-IsRegular = record { late = omega arith; hour = omega arith }

opens_on_slot : initial_form zone 1500 (create 1 free_hour) ≡ record new_form { player = [] }
unfolding initial_form format_time two_digits
opens_on_slot = refl

new_form-Agrees : Agrees creating new_form
unfolding start_of_day base_ms parse_time split number time_on_day
new_form-Agrees = record {
  start = noon;
  out = 1768030200000;
  length_mins = 60;
  on_day = record { after_opening = omega arith; within_day = omega arith; whole = refl };
  read_in = refl;
  read_out = refl;
  positive = omega arith;
  below_day = omega arith;
  duration = refl;
  spans = refl;
}

submit_new_form : handle_submit creating new_form ≡ some summary
unfolding handle_submit parse_time split number time_on_day start_of_day base_ms check_target
    is_blank
submit_new_form = refl

-- Editing the first booking onto the second is refused.
submit_overlap :
    handle_submit editing (record new_form { check_in = codes "12:45"; check_out = codes "13:15" })
    ≡ some (rejected (overlap (codes "Ben") (codes "13:00") (codes "13:30")))
unfolding handle_submit parse_time split number time_on_day start_of_day base_ms check_target
    is_blank conflicts find_by format_time two_digits
submit_overlap = refl

handle_submit_iff_example : (handle_submit creating new_form ≡ some summary) ↔ (
    (is_blank (codes "Cal") ≡ false)
    × (15 ≤ 60)
    × Fits bookings (create 1 free_hour) noon (noon + 60 * 60000))
unfolding new_form-Agrees
handle_submit_iff_example = Submit.handle_submit_iff creating new_form new_form-Agrees

abbrev session : List Edit
session = choose_mins 90 ∷ set_player (codes "Dee") ∷ []

run_edits-Agrees_example :
    (f' : Form) × (run_edits creating new_form session ≡ some f') × Agrees creating f'
unfolding dur_mins_of
run_edits-Agrees_example =
    Session.run_edits-Agrees creating creating-IsRegular new_form session new_form-Agrees
      ((90, refl, omega arith, omega arith), λ f' e. (tt, λ g e'. tt))

overlong_duration-Confirms_more_example :
    (f' : Form) × (handle_duration_change creating new_form (mins 1470) ≡ some f')
    × (handle_submit creating f' ≡ some summary)
    × Confirms creating f' noon (pos ((1440 + 30) * 60000))
unfolding new_form-Agrees dur_mins_of is_blank
overlong_duration-Confirms_more_example =
    Faults.overlong_duration-Confirms_more creating new_form new_form-Agrees (mins 1470) 30
      creating-IsRegular refl (omega arith) (omega arith) refl (omega arith, omega arith)

-- The hour after the first booking, with a check-in ten minutes before that ends.
parse_time-format_time_example :
    parse_time zone 10 (format_time zone half_past_noon) noon
    ≡ some (whole_minute zone half_past_noon)
unfolding start_of_day
parse_time-format_time_example =
    Times.parse_time-format_time zone 10 noon (omega arith) (omega arith) half_past_noon
      (omega arith) (omega arith)

-- The hour from noon is free.
hour_is_offered : Any (λ x. x ≡ free_hour) (free_slots zone noon bookings 24 noon 10)
unfolding free_slots scan_bookings add_slot_if_valid sort_bookings insert_booking start_of_day
hour_is_offered = inl refl

half_hour : Books (slot_props zone 10 1500 bookings 1 free_hour) 1 free_hour (codes "Cal") 30
unfolding is_blank
half_hour =
    Bookable.free_slots_can_be_booked zone 10 1500 bookings 1 (codes "Cal") 30 (omega arith) refl
      (omega arith) (omega arith) noon 24 noon free_hour (omega arith) hour_is_offered (omega arith)

free_slots_can_be_booked_example :
    Books (slot_props zone 10 1500 bookings 1 free_hour) 1 free_hour (codes "Cal") 30
unfolding is_blank
free_slots_can_be_booked_example =
    Bookable.free_slots_can_be_booked zone 10 1500 bookings 1 (codes "Cal") 30 (omega arith) refl
      (omega arith) (omega arith) noon 24 noon free_hour (omega arith) hour_is_offered (omega arith)

booked_time_is_free_example :
    All
      (λ other.
        ((create_booking half_hour.3).check_out_time ≤ other.start_time)
        ⊎ (end_time other ≤ (create_booking half_hour.3).check_in_time))
      bookings
unfolding is_blank
booked_time_is_free_example =
    Bookable.booked_time_is_free zone 10 1500 bookings 1 (codes "Cal") 30 (omega arith) refl
      (omega arith) (omega arith) noon 24 noon free_hour (omega arith) hour_is_offered refl
      (omega arith) half_hour

named_form :
    apply_edit creating (initial_form zone 1500 (create 1 free_hour)) (set_player (codes "Cal"))
    ≡ some new_form
unfolding apply_edit initial_form format_time two_digits
named_form = refl

-- A name is entered, and the form is submitted.
review-ConfirmsFitting_example :
    ConfirmsFitting (submitted_as summary (record (open_dialog creating) { form = new_form }))
unfolding open_dialog submitted_as
review-ConfirmsFitting_example =
    Sessions.review-ConfirmsFitting creating 1 free_hour creating-IsRegular refl
      (and_then (and_then opened (edits (set_player (codes "Cal")) new_form refl tt named_form))
        (submits summary refl submit_new_form))
      refl
