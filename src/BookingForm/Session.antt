-- ===== src/BookingForm/Session.antt =====
-- Whole sessions with the form: from the opening of the dialog, through the edits of its fields.
use gbc_smart_management.Base.{
  ℕ, ◌+◌, ◌*◌, ◌/◌, ◌%◌, ◌≤◌, ◌<◌, ◌≡◌, ◌≢◌, refl, ◌∙◌, ap, arith, List, [], ◌∷◌, Option, some, pos,
  floor_div, Text,
}
use mathlib.Core.Path.{ap₂}
use gbc_smart_management.Calendar.{day_ms, whole_minute, get_hours, get_minutes}
use gbc_smart_management.Timeline.{Booking, end_time}
use gbc_smart_management.Timeline.BusinessDay.{start_of_day_bounds}
use gbc_smart_management.Slots.{Slot}
use gbc_smart_management.BookingForm.{
  Props, Form, edit, create, Edit, set_check_in, set_check_out, set_hours_part, set_minutes_part,
  choose_mins, set_player, set_mobile, set_amount, set_is_paid, apply_edit, DurationInput,
  dur_mins_of, base_ms, parse_in, format_time, time_text, parts, mins, remainder, initial_form,
  ◌>>=◌,
}
use gbc_smart_management.BookingForm.Times.{parse_time-format_time}
use gbc_smart_management.BookingForm.Agreement.{
  IsRegular, IsOnDay, Agrees, IsTimeText, check_in_change-Agrees, check_out_change-Agrees,
  duration_change-Agrees, agrees_of_start,
}

-- The duration that is entered is positive and below a day.
abbrev pub IsBelowDay : DurationInput → Type 0
IsBelowDay val = (n : ℕ) × (dur_mins_of val ≡ pos n) × (0 < n) × (n < 1440)

-- A time is one that a time input gives, the check-out differs from the check-in, and a duration is
-- positive and below a day.
abbrev pub IsSafe : Props → Form → Edit → Type 0
IsSafe p f (set_check_in val) = IsTimeText val
IsSafe p f (set_check_out val) = IsTimeText val × (parse_in p val ≢ parse_in p f.check_in)
IsSafe p f (set_hours_part h) = IsBelowDay (parts h (remainder f.duration_mins 60))
IsSafe p f (set_minutes_part m) = IsBelowDay (parts (floor_div f.duration_mins 60) m)
IsSafe p f (choose_mins n) = IsBelowDay (mins n)
IsSafe p f (set_player v) = Unit {0}
IsSafe p f (set_mobile v) = Unit {0}
IsSafe p f (set_amount v) = Unit {0}
IsSafe p f (set_is_paid v) = Unit {0}

-- The edits one after the other.
unfoldable pub run_edits : Props → Form → List Edit → Option Form
run_edits p f [] = some f
run_edits p f (e ∷ es) = apply_edit p f e >>= λ f'. run_edits p f' es

abbrev pub IsSafeRun : Props → Form → List Edit → Type 0
IsSafeRun p f [] = Unit {0}
IsSafeRun p f (e ∷ es) =
    IsSafe p f e × ((f' : Form) → apply_edit p f e ≡ some f' → IsSafeRun p f' es)

with_times :
    (p : Props) (f g : Form)
    → f.check_in ≡ g.check_in
    → f.check_out ≡ g.check_out
    → f.duration_mins ≡ g.duration_mins
    → Agrees p f
    → Agrees p g
with_times p f g e1 e2 e3 a = record {
  start = a.start;
  out = a.out;
  length_mins = a.length_mins;
  on_day = a.on_day;
  read_in = rw (← e1) a.read_in;
  read_out = rw (← e2) a.read_out;
  positive = a.positive;
  below_day = a.below_day;
  duration = rw (← e3) a.duration;
  spans = a.spans;
}

module _ (p : Props) (r : IsRegular p) where
  pub apply_edit-Agrees :
      (f : Form) (e : Edit)
      → Agrees p f
      → IsSafe p f e
      → (f' : Form) × (apply_edit p f e ≡ some f') × Agrees p f'
  unfolding apply_edit
  apply_edit-Agrees f (set_check_in val) a s =
      check_in_change-Agrees p r f val a.length_mins s a.positive a.below_day a.duration
  apply_edit-Agrees f (set_check_out val) a (s, ne) = check_out_change-Agrees p r f val a s ne
  apply_edit-Agrees f (set_hours_part h) a (n, e, h1, h2) =
      duration_change-Agrees p r f _ n a e h1 h2
  apply_edit-Agrees f (set_minutes_part m) a (n, e, h1, h2) =
      duration_change-Agrees p r f _ n a e h1 h2
  apply_edit-Agrees f (choose_mins k) a (n, e, h1, h2) = duration_change-Agrees p r f _ n a e h1 h2
  apply_edit-Agrees f (set_player v) a s = (_, refl, with_times p f _ refl refl refl a)
  apply_edit-Agrees f (set_mobile v) a s = (_, refl, with_times p f _ refl refl refl a)
  apply_edit-Agrees f (set_amount v) a s = (_, refl, with_times p f _ refl refl refl a)
  apply_edit-Agrees f (set_is_paid v) a s = (_, refl, with_times p f _ refl refl refl a)

  -- With times two days after the epoch or later and an opening hour below 24, safe edits of a form
  -- whose times and duration agree all succeed, without a NaN, and leave a form in which they agree.
  pub run_edits-Agrees :
      (f : Form) (es : List Edit)
      → Agrees p f
      → IsSafeRun p f es
      → (f' : Form) × (run_edits p f es ≡ some f') × Agrees p f'
  unfolding run_edits
  run_edits-Agrees f [] a s = (f, refl, a)
  run_edits-Agrees f (e ∷ es) a (s, rest) =
      let (f', step, a') = apply_edit-Agrees f e a s in
      let (g, run, b) = run_edits-Agrees f' es a' (rest f' step) in (g, rw (step, ◌>>=◌) run, b)

format_time-whole_minute :
    (zone t n : ℕ)
    → 172800000 ≤ t
    → format_time zone (t + n * 60000) ≡ format_time zone (whole_minute zone t + n * 60000)
unfolding format_time
format_time-whole_minute zone t n h =
    let hours : get_hours zone (t + n * 60000) ≡ get_hours zone (whole_minute zone t + n * 60000) =
      omega arith in
    let minutes : get_minutes zone (t + n * 60000)
        ≡ get_minutes zone (whole_minute zone t + n * 60000) =
      omega arith in
    ap₂ time_text hours minutes

-- The time that the form opens at, which it shows cut down to the whole minute.
module _ (p : Props) (r : IsRegular p) where
  pub base-IsOnDay : IsOnDay p (whole_minute p.zone (base_ms p.target))
  base-IsOnDay =
      let day = start_of_day_bounds p.zone (base_ms p.target) p.open_hour r.late r.hour in
      record {
        after_opening = omega (arith, day);
        within_day = omega (arith, day);
        whole = omega (arith, r.late);
      }

  pub read_base :
      (t : Text)
      → t ≡ format_time p.zone (base_ms p.target)
      → parse_in p t ≡ some (whole_minute p.zone (base_ms p.target))
  read_base t e =
      let day = start_of_day_bounds p.zone (base_ms p.target) p.open_hour r.late r.hour in
      rw e (
        parse_time-format_time p.zone p.open_hour (base_ms p.target) r.late r.hour
          (base_ms p.target) day.0 day.1)

  initial-Agrees :
      (f : Form) (n end : ℕ)
      → end ≡ base_ms p.target + n * 60000
      → 0 < n
      → n < 1440
      → f.check_in ≡ format_time p.zone (base_ms p.target)
      → f.check_out ≡ format_time p.zone end
      → f.duration_mins ≡ pos n
      → Agrees p f
  initial-Agrees f n end e h1 h2 e1 e2 e3 =
      agrees_of_start p r f (whole_minute p.zone (base_ms p.target)) n base-IsOnDay
        (read_base f.check_in e1) h1 h2 e3
        (e2 ∙ rw e (format_time-whole_minute p.zone (base_ms p.target) n r.late))

-- The form that opens on a free slot agrees; so does the one that opens on a booking whose duration
-- is whole minutes, positive and below a day.
pub initial_form-Agrees_create :
    (p : Props) (table : ℕ) (s : Slot)
    → IsRegular p
    → p.target ≡ create table s
    → Agrees p (initial_form p.zone p.hourly_rate p.target)
unfolding initial_form base_ms
initial_form-Agrees_create p table s r e =
    initial-Agrees p r _ 60 (s.start_timestamp + 60 * 60000) (rw e) (omega arith) (omega arith)
      (rw e) (rw e) (rw e)

pub initial_form-Agrees_edit :
    (p : Props) (b : Booking)
    → IsRegular p
    → p.target ≡ edit b
    → b.duration % 60000 ≡ 0
    → 0 < b.duration
    → b.duration < day_ms
    → Agrees p (initial_form p.zone p.hourly_rate p.target)
unfolding initial_form base_ms
initial_form-Agrees_edit p b r e h1 h2 h3 =
    initial-Agrees p r _ (b.duration / 60000) (end_time b) (rw e (omega arith)) (omega arith)
      (omega arith) (rw e) (rw e) (rw e (ap pos (omega arith)))
