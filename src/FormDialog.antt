-- ===== src/FormDialog.antt =====
-- frontend/src/components/timeline/CreateBookingModal.jsx: the two steps of the dialog around the form,
-- its error, and what its summary shows.
pub mod Sessions
use gbc_smart_management.Base.{
  ℕ, zero, suc, ◌/◌, ◌%◌, ◌==◌, ltb, ◌&&◌, Bool, true, false, if◌then◌else◌, ℤ, pos, negsuc, List,
  [], ◌∷◌, ◌++◌, Option, none, some, Text, codes, decimal, two_digits,
}
use gbc_smart_management.Timeline.{Booking}
use gbc_smart_management.BookingForm.{Form, Props, Target, edit, create, initial_form}
use gbc_smart_management.Submission.{
  SubmitError, Outcome, rejected, summary, handle_submit, table_of,
}

-- `step`
pub data Stage : Type 0 where
  entering reviewing : Stage

pub record FormDialog : Type 0 where
  pub props : Props
  pub stage : Stage
  pub error : Option SubmitError
  pub form : Form

-- The effect that runs when the dialog opens.
unfoldable pub open_dialog : Props → FormDialog
open_dialog p = record {
  props = p;
  stage = entering;
  error = none;
  form = initial_form p.zone p.hourly_rate p.target;
}

-- The rate of the settings changes while the dialog is open: its effect fills the form again.
unfoldable pub rate_changes : ℕ → FormDialog → FormDialog
rate_changes rate s = open_dialog (record (s.props) { hourly_rate = rate })

-- `handleSubmit`, of what its checks say.
unfoldable pub submitted_as : Outcome → FormDialog → FormDialog
submitted_as (rejected e) s = record s { error = some e }
submitted_as summary s = record s { error = none; stage = reviewing }

-- `setStep('form')`
unfoldable pub go_back : FormDialog → FormDialog
go_back s = record s { stage = entering }

-- New bookings of the table, from the store.
unfoldable pub with_bookings : List Booking → Props → Props
with_bookings bs p = record p { table_bookings = bs }

unfoldable pub bookings_arrive : List Booking → FormDialog → FormDialog
bookings_arrive bs s = record s { props = with_bookings bs s.props }

-- `formatDurationMins`; a negative duration has no hours to show.
unfoldable pub hours_and_minutes : ℕ → ℕ → Text
hours_and_minutes h m =
    if ltb 0 h && ltb 0 m
    then decimal h ++ codes "h " ++ decimal m ++ codes "m"
    else if ltb 0 h
    then decimal h ++ codes "h"
    else decimal m ++ codes "m"

unfoldable pub format_duration_mins : ℤ → Text
format_duration_mins (pos zero) = []
format_duration_mins (pos (suc n)) = hours_and_minutes (suc n / 60) (suc n % 60)
format_duration_mins (negsuc n) =
    if suc n % 60 == 0 then codes "0m" else codes "-" ++ decimal (suc n % 60) ++ codes "m"

-- `parseFloat(form.amount).toFixed(2)`
unfoldable pub amount_text : Option ℤ → Text
amount_text none = codes "$NaN"
amount_text (some (pos n)) = codes "$" ++ decimal (n / 100) ++ b'.' ∷ two_digits (n % 100)
amount_text (some (negsuc n)) =
    codes "$-" ++ decimal (suc n / 100) ++ b'.' ∷ two_digits (suc n % 100)

-- What the dialog shows: the form under its title with an error, or the summary.
pub record Review : Type 0 where
  pub title : Text
  pub table : Text
  pub player : Text
  pub times : Text
  pub duration : Text
  pub amount : Text
  pub paid : Text

pub data DialogView : Type 0 where
  form_view : Text → Text → Option SubmitError → Form → DialogView
  review_view : Review → DialogView

unfoldable pub is_edit : Target → Bool
is_edit (edit b) = true
is_edit (create table s) = false

unfoldable pub review_of : FormDialog → Review
review_of s = record {
  title = if is_edit s.props.target then codes "Review Changes" else codes "Review Booking";
  table = b'0' ∷ decimal (table_of s.props.target);
  player = s.form.player;
  times = s.form.check_in ++ codes " → " ++ s.form.check_out;
  duration = format_duration_mins s.form.duration_mins;
  amount = amount_text s.form.amount;
  paid = if s.form.is_paid then codes "Paid" else codes "Unpaid";
}

unfoldable pub dialog_view : FormDialog → DialogView
dialog_view s = elim s.stage [
  | entering ↦
      form_view (if is_edit s.props.target then codes "Edit Booking" else codes "New Booking")
        (codes "Table 0" ++ decimal (table_of s.props.target)) s.error s.form
  | reviewing ↦ review_view (review_of s)
]
