-- ===== src/BookingForm/Faults.antt =====
-- Where what is checked and what is confirmed differ: `handleSubmit` checks the two times, and
-- `handleConfirm` sends the check-in with the duration.
use gbc_smart_management.Base.{
  ℕ, suc, ◌+◌, ◌*◌, ◌≤◌, ◌<◌, ◌≡◌, refl, ap, ◌∙◌, false, arith, some, is_blank, ℤ, pos, scale,
}
use mathlib.Core.Path.{ap₂}
use mathlib.Core.List.{List}
use gbc_smart_management.Calendar.{get_hours, get_minutes}
use gbc_smart_management.Timeline.{Booking, end_time}
use gbc_smart_management.Slots.{Slot, slot_end}
use gbc_smart_management.BookingForm.{
  Props, Form, create, BookingData, DurationInput, dur_mins_of, base_ms, parse_in,
  handle_duration_change, format_time, time_text, price,
}
use gbc_smart_management.Submission.{summary, handle_submit, handle_confirm, check_target}
use gbc_smart_management.BookingForm.Times.{reread}
use gbc_smart_management.BookingForm.Agreement.{IsRegular, Agrees, check_in_not_empty}
use gbc_smart_management.BookingForm.Submit.{
  Fits, submitted_iff, handle_submit_read, check_target_iff, confirmed, handle_confirm_read,
}

-- A booking that is confirmed with a duration.
abbrev pub Confirms : Props → Form → ℕ → ℤ → Type 0
Confirms p f start duration =
    (d : BookingData) × (handle_confirm p f ≡ some d)
    × (d.start_time ≡ start)
    × (d.duration ≡ duration)

format_time-next_day : (zone t : ℕ) → format_time zone (t + 86400000) ≡ format_time zone t
unfolding format_time
format_time-next_day zone t =
    let hours : get_hours zone (t + 86400000) ≡ get_hours zone t = omega arith in
    let minutes : get_minutes zone (t + 86400000) ≡ get_minutes zone t = omega arith in
    ap₂ time_text hours minutes

module _ (p : Props) (f : Form) (a : Agrees p f) where
  -- When the duration of a form that agrees is then set to 0, the check-out stays, so the form is
  -- accepted as before; but the confirmed booking lasts an hour, whatever was checked.
  pub zero_duration-Confirms_hour :
      (val : DurationInput)
      → dur_mins_of val ≡ pos 0
      → handle_submit p f ≡ some summary
      → (f' : Form) × (handle_duration_change p f val ≡ some f')
        × (handle_submit p f' ≡ some summary)
        × Confirms p f' a.start (pos 3600000)
  unfolding handle_duration_change handle_submit scale
  zero_duration-Confirms_hour val e h =
      let f' : Form = record f { duration_mins = dur_mins_of val } in
      (
        f',
        rw e,
        h,
        (confirmed p f' a.start, handle_confirm_read p f' a.start a.read_in, refl, rw e),
      )

  -- In a form whose fields agree, with regular properties and a name that is not blank, the duration is
  -- set to a day and `r` minutes, from 15 minutes to less than a day, and the `r` minutes fit: the form is
  -- accepted, whatever bookings the next 24 hours hold, and what is confirmed is the whole duration.
  pub overlong_duration-Confirms_more :
      (val : DurationInput) (r : ℕ)
      → IsRegular p
      → dur_mins_of val ≡ pos (1440 + r)
      → 15 ≤ r
      → r < 1440
      → is_blank f.player ≡ false
      → Fits p.table_bookings p.target a.start (a.start + r * 60000)
      → (f' : Form) × (handle_duration_change p f val ≡ some f')
        × (handle_submit p f' ≡ some summary)
        × Confirms p f' a.start (pos ((1440 + r) * 60000))
  unfolding handle_duration_change scale
  overlong_duration-Confirms_more val r regular e h1 h2 named fits =
      let e' : dur_mins_of val ≡ pos (suc (1439 + r)) = e ∙ ap pos (omega arith) in
      let late : ℕ = a.start + suc (1439 + r) * 60000 in
      let f' : Form = record f {
        duration_mins = dur_mins_of val;
        check_out = format_time p.zone late;
        amount = some (price p.hourly_rate (dur_mins_of val));
      } in
      let next_day : late ≡ a.start + r * 60000 + 86400000 = omega arith in
      let (out, read, spans) =
        reread p.zone p.open_hour (base_ms p.target) regular.late regular.hour a.start r
          a.on_day.after_opening a.on_day.within_day a.on_day.whole (omega arith) h2 in
      let read_out : parse_in p f'.check_out ≡ some out =
        rw (next_day, format_time-next_day) read in
      (
        f',
        rw (e', check_in_not_empty p regular f a, a.read_in),
        rw (handle_submit_read p f' a.start out a.read_in read_out, spans)
            ((submitted_iff p (is_blank f.player) a.start r).1 (named, h1, fits)),
        (
          confirmed p f' a.start,
          handle_confirm_read p f' a.start a.read_in,
          refl,
          rw e' (ap pos (omega arith)),
        ),
      )

-- In create mode a check-in may lie up to 15 minutes before the slot: where a booking ends at the start
-- of the slot, a new booking that starts within its last 15 minutes and ends within the slot is
-- accepted, though the two overlap.
pub create_mode_overlap :
    (zone : ℕ) (bookings : List Booking) (table : ℕ) (s : Slot) (b : Booking) (start finish : ℕ)
    → end_time b ≡ s.start_timestamp
    → b.start_time < finish
    → start < s.start_timestamp
    → s.start_timestamp ≤ start + 900000
    → start + 900000 ≤ finish
    → finish ≤ slot_end s
    → (check_target zone bookings (create table s) start finish ≡ summary)
      × (start < end_time b)
      × (b.start_time < finish)
create_mode_overlap zone bookings table s b start finish h1 h2 h3 h4 h5 h6 =
    ((check_target_iff zone bookings (create table s) start finish h5).1 (h4, h6), omega arith, h2)
