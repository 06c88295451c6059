-- ===== src/FormDialog/Sessions.antt =====
-- Whole sessions with the dialog: what is confirmed has been checked.
use gbc_smart_management.Base.{
  ℕ, ◌+◌, ◌*◌, ◌≤◌, ◌≡◌, ◌⊎◌, inl, inr, refl, sym, ◌∙◌, subst, List, none, some, pos,
}
use gbc_smart_management.Timeline.{Booking}
use gbc_smart_management.Slots.{Slot}
use gbc_smart_management.BookingForm.{Form, Props, create, Edit, apply_edit, BookingData}
use gbc_smart_management.Submission.{Outcome, rejected, summary, handle_submit, handle_confirm}
use gbc_smart_management.BookingForm.Agreement.{IsRegular, Agrees}
use gbc_smart_management.BookingForm.Session.{IsSafe, apply_edit-Agrees, initial_form-Agrees_create}
use gbc_smart_management.BookingForm.Submit.{Fits, handle_confirm-Fits}
use gbc_smart_management.FormDialog.{
  entering, reviewing, FormDialog, open_dialog, submitted_as, go_back, with_bookings,
  bookings_arrive, rate_changes,
}

-- A step of the dialog while it is open; the fields can be edited only while the form is shown.
pub data DialogStep (s : FormDialog) : FormDialog → Type 0 where
  edits :
      (e : Edit) (f : Form)
      → s.stage ≡ entering
      → IsSafe s.props s.form e
      → apply_edit s.props s.form e ≡ some f
      → DialogStep s (record s { form = f })
  submits :
      (o : Outcome)
      → s.stage ≡ entering
      → handle_submit s.props s.form ≡ some o
      → DialogStep s (submitted_as o s)
  backs : s.stage ≡ reviewing → DialogStep s (go_back s)
  arrives : (bs : List Booking) → DialogStep s (bookings_arrive bs s)
  reloads : (rate : ℕ) → DialogStep s (rate_changes rate s)

pub data DialogRun (s : FormDialog) : FormDialog → Type 0 where
  opened : DialogRun s s
  and_then : {t u : FormDialog} → DialogRun s t → DialogStep t u → DialogRun s u

-- The times and the duration agree, and a form that is reviewed has passed the checks, with the bookings of
-- the table at that time.
pub record IsChecked (table : ℕ) (slot : Slot) (s : FormDialog) : Type 0 where
  pub on_slot : s.props.target ≡ create table slot
  pub regular : IsRegular s.props
  pub agrees : Agrees s.props s.form
  pub checked :
      (s.stage ≡ entering)
      ⊎ ((bs : List Booking) × (handle_submit (with_bookings bs s.props) s.form ≡ some summary))

module _ (p : Props) (bs : List Booking) where
  with_bookings-Agrees : (f : Form) → Agrees p f → Agrees (with_bookings bs p) f
  unfolding with_bookings
  with_bookings-Agrees f a = record {
    start = a.start;
    out = a.out;
    length_mins = a.length_mins;
    on_day = record {
      after_opening = a.on_day.after_opening;
      within_day = a.on_day.within_day;
      whole = a.on_day.whole;
    };
    read_in = a.read_in;
    read_out = a.read_out;
    positive = a.positive;
    below_day = a.below_day;
    duration = a.duration;
    spans = a.spans;
  }

  with_bookings-IsRegular : IsRegular p → IsRegular (with_bookings bs p)
  unfolding with_bookings
  with_bookings-IsRegular r = record { late = r.late; hour = r.hour }

  with_bookings_confirm : (f : Form) → handle_confirm (with_bookings bs p) f ≡ handle_confirm p f
  unfolding with_bookings handle_confirm
  with_bookings_confirm f = refl

DialogStep-IsChecked :
    {table : ℕ} {slot : Slot} {s u : FormDialog}
    → IsChecked table slot s
    → DialogStep s u
    → IsChecked table slot u
unfolding go_back bookings_arrive submitted_as with_bookings rate_changes open_dialog
DialogStep-IsChecked {s} c (edits e f stage safe done) = record {
  on_slot = c.on_slot;
  regular = c.regular;
  agrees =
      let (g, same, a) = apply_edit-Agrees s.props c.regular s.form e c.agrees safe in
      subst (λ o. elim o [ none ↦ Unit | some x ↦ Agrees s.props x ]) (sym same ∙ done) a;
  checked = inl stage;
}
DialogStep-IsChecked {s} c (submits (rejected e) stage h) = record {
  on_slot = c.on_slot;
  regular = c.regular;
  agrees = c.agrees;
  checked = inl stage;
}
DialogStep-IsChecked {s} c (submits summary stage h) = record {
  on_slot = c.on_slot;
  regular = c.regular;
  agrees = c.agrees;
  checked = inr (s.props.table_bookings, h);
}
DialogStep-IsChecked {s} c (backs stage) = record {
  on_slot = c.on_slot;
  regular = c.regular;
  agrees = c.agrees;
  checked = inl refl;
}
DialogStep-IsChecked {s} c (arrives bs) = record {
  on_slot = c.on_slot;
  regular = with_bookings-IsRegular s.props bs c.regular;
  agrees = with_bookings-Agrees s.props bs s.form c.agrees;
  checked = c.checked;
}
DialogStep-IsChecked {table} {slot} {s} c (reloads rate) =
    let r : IsRegular (record s.props { hourly_rate = rate }) = record {
      late = c.regular.late;
      hour = c.regular.hour;
    } in
    record {
      on_slot = c.on_slot;
      regular = r;
      agrees = initial_form-Agrees_create _ table slot r c.on_slot;
      checked = inl refl;
    }

DialogRun-IsChecked :
    {table : ℕ} {slot : Slot} {s u : FormDialog}
    → IsChecked table slot s
    → DialogRun s u
    → IsChecked table slot u
DialogRun-IsChecked c opened = c
DialogRun-IsChecked c (and_then r st) = DialogStep-IsChecked (DialogRun-IsChecked c r) st

-- What the review of a form leads to: data for `n` minutes, 15 at least, that fits the target and the
-- bookings `bs`.
abbrev pub ConfirmsFitting : FormDialog → Type 0
ConfirmsFitting s =
    (bs : List Booking) × (d : BookingData) × (n : ℕ) × (handle_confirm s.props s.form ≡ some d)
    × (d.duration ≡ pos (n * 60000))
    × (15 ≤ n)
    × Fits bs s.props.target d.start_time (d.start_time + n * 60000)

IsChecked-confirms :
    (table : ℕ) (slot : Slot) (s : FormDialog)
    → IsChecked table slot s
    → s.stage ≡ reviewing
    → ConfirmsFitting s
unfolding with_bookings
IsChecked-confirms table slot s c e = elim c.checked [
  | inl entering_still ↦ cc
  | inr (bs, accepted) ↦
      let a = with_bookings-Agrees s.props bs s.form c.agrees in
      let (d, sent, lasts, long, fits) =
        handle_confirm-Fits (with_bookings bs s.props) s.form a accepted in
      (
        bs,
        d,
        a.length_mins,
        sym (with_bookings_confirm s.props bs s.form) ∙ sent,
        lasts,
        long,
        fits,
      )
]

-- From the opening of the dialog on a free slot, two days after the epoch or later and with an opening hour
-- of the clock, through any edits whose durations are positive and below a day and whose times differ,
-- submits, returns to the form and changes of the rate and of the table's bookings: whenever the review is shown, its
-- confirmation sends data for a whole number of minutes, 15 at least, that start 15 minutes before the slot
-- or later and end within it.
pub review-ConfirmsFitting :
    (p : Props) (table : ℕ) (s : Slot) {u : FormDialog}
    → IsRegular p
    → p.target ≡ create table s
    → DialogRun (open_dialog p) u
    → u.stage ≡ reviewing
    → ConfirmsFitting u
unfolding open_dialog
review-ConfirmsFitting p table s r e run reviewed =
    IsChecked-confirms table s _
      (DialogRun-IsChecked
        (record {
          on_slot = e;
          regular = r;
          agrees = initial_form-Agrees_create p table s r e;
          checked = inl refl;
        })
        run)
      reviewed
