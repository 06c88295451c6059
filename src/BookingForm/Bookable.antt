-- ===== src/BookingForm/Bookable.antt =====
-- What the timeline offers can be booked: from a free slot through the form to what is sent.
use gbc_smart_management.Base.{
  Any, All-Any, ◌⊎◌, ℕ, zero, suc, ◌+◌, ◌*◌, ◌/◌, ◌%◌, ◌≤◌, ◌<◌, ◌≡◌, refl, ◌∙◌, ap, arith, List,
  [], ◌∷◌, All, All-imp, some, false, Text, is_blank, is_empty, pos, scale, ◌+ℤ◌, floor_div,
}
use gbc_smart_management.Calendar.{whole_minute}
use gbc_smart_management.Timeline.{Booking, end_time, start_of_day}
use gbc_smart_management.Slots.{Slot, free_slots}
use gbc_smart_management.Slots.Sound.{Apart, IsBookable, free_slots-IsBookable}
use gbc_smart_management.BookingForm.{
  Props, Form, create, Edit, set_hours_part, set_minutes_part, set_player, apply_edit,
  handle_duration_change, DurationInput, dur_mins_of, parts, remainder, base_ms, parse_in,
  format_time, initial_form, price, BookingData, ◌>>=◌,
}
use gbc_smart_management.Submission.{summary, handle_submit, handle_confirm}
use gbc_smart_management.BookingForm.Agreement.{IsRegular, check_in_not_empty}
use gbc_smart_management.BookingForm.Session.{
  run_edits, initial_form-Agrees_create, base-IsOnDay, read_base,
}
use gbc_smart_management.Api.{create_booking, check_out_of}
use gbc_smart_management.BookingForm.Times.{reread}
use gbc_smart_management.BookingForm.Submit.{
  handle_submit_read, submitted_iff, handle_confirm_read, confirmed, or_hour_pos,
}

-- The form after a duration of `n` minutes from `start` is entered.
abbrev timed : Props → ℕ → ℕ → Form → Form
timed p start n f = record f {
  duration_mins = pos n;
  check_out = format_time p.zone (start + n * 60000);
  amount = some (price p.hourly_rate (pos n));
}

duration_change_timed :
    (p : Props) (f : Form) (val : DurationInput) (start n : ℕ)
    → dur_mins_of val ≡ pos n
    → 0 < n
    → is_empty f.check_in ≡ false
    → parse_in p f.check_in ≡ some start
    → handle_duration_change p f val ≡ some (timed p start n f)
unfolding handle_duration_change
duration_change_timed p f val start zero e h full read = absurd (omega arith)
duration_change_timed p f val start (suc n) e h full read = rw (e, full, read) refl

minutes_entered : (m : ℕ) → dur_mins_of (parts (floor_div (pos 60) 60) (pos m)) ≡ pos (60 + m)
unfolding dur_mins_of floor_div scale ◌+ℤ◌
minutes_entered m = ground arith

hours_entered :
    (n : ℕ) → dur_mins_of (parts (pos (n / 60)) (remainder (pos (60 + n % 60)) 60)) ≡ pos n
unfolding dur_mins_of scale ◌+ℤ◌
hours_entered n = ground arith

-- A name is entered, and the two parts of a duration.
abbrev pub booking_edits : Text → ℕ → List Edit
booking_edits name n =
    set_player name ∷ set_minutes_part (pos (n % 60)) ∷ set_hours_part (pos (n / 60)) ∷ []

-- A slot is booked for `n` minutes by these edits of the form that opens on it: the form goes on to the
-- summary, and is then sent for the table, from the slot's first minute on, for `n` minutes, and in that
-- name.
abbrev pub Books : Props → ℕ → Slot → Text → ℕ → Type 0
Books p table s name n =
    (f : Form) × (run_edits p (initial_form p.zone p.hourly_rate p.target) (booking_edits name n)
      ≡ some f)
    × (handle_submit p f ≡ some summary)
    × (d : BookingData) × (handle_confirm p f ≡ some d)
    × (d.table_id ≡ table)
    × (d.start_time ≡ whole_minute p.zone s.start_timestamp)
    × (d.duration ≡ pos (n * 60000))
    × (d.player ≡ name)

booking_edits_run :
    (p : Props) (f : Form) (name : Text) (start n : ℕ)
    → 0 < n
    → f.duration_mins ≡ pos 60
    → is_empty f.check_in ≡ false
    → parse_in p f.check_in ≡ some start
    → run_edits p f (booking_edits name n)
      ≡ some (timed p start n (timed p start (60 + n % 60) (record f { player = name })))
unfolding run_edits apply_edit
booking_edits_run p f name start n h hour full read =
    let named : Form = record f { player = name } in
    let minutes = parts (floor_div f.duration_mins 60) (pos (n % 60)) in
    let hours = parts (pos (n / 60)) (remainder (pos (60 + n % 60)) 60) in
    let entered : dur_mins_of minutes ≡ pos (60 + n % 60) =
      ap (λ d. dur_mins_of (parts (floor_div d 60) (pos (n % 60)))) hour
      ∙ minutes_entered (n % 60) in
    let first : handle_duration_change p named minutes ≡ some (timed p start (60 + n % 60) named) =
      duration_change_timed p named minutes start (60 + n % 60) entered (omega arith) full read in
    let then : handle_duration_change p (timed p start (60 + n % 60) named) hours
        ≡ some (timed p start n (timed p start (60 + n % 60) named)) =
      duration_change_timed p _ hours start n (hours_entered n) h full read in
    rw (first, ◌>>=◌) (rw (then, ◌>>=◌) refl)

-- The dialog that opens on a free slot.
abbrev pub slot_props : ℕ → ℕ → ℕ → List Booking → ℕ → Slot → Props
slot_props zone open_hour rate bookings table s = record {
  zone = zone;
  open_hour = open_hour;
  hourly_rate = rate;
  target = create table s;
  table_bookings = bookings;
}

module _ (zone open_hour rate : ℕ) (bookings : List Booking) (table : ℕ) (name : Text) (n : ℕ)
    (hour : open_hour < 24) (named : is_blank name ≡ false) (long : 15 ≤ n)
    (below_day : n < 1440) where
  slot_can_be_booked :
      (s : Slot)
      → 172800000 ≤ s.start_timestamp
      → n * 60000 ≤ s.duration_ms
      → Books (slot_props zone open_hour rate bookings table s) table s name n
  unfolding base_ms initial_form scale
  slot_can_be_booked s late room =
      let p = slot_props zone open_hour rate bookings table s in
      let r : IsRegular p = record { late = late; hour = hour } in
      let start = whole_minute zone s.start_timestamp in
      let f0 = initial_form zone rate (create table s) in
      let read = read_base p r f0.check_in refl in
      let full = check_in_not_empty p r f0 (initial_form-Agrees_create p table s r refl) in
      let f : Form = timed p start n (timed p start (60 + n % 60) (record f0 { player = name })) in
      let day = base-IsOnDay p r in
      let (out, read_out, spans) =
        reread zone open_hour s.start_timestamp late hour start n day.after_opening day.within_day
          day.whole (omega arith) below_day in
      (
        f,
        booking_edits_run p f0 name start n (omega arith) refl full read,
        rw (handle_submit_read p f start out read read_out, spans)
            ((submitted_iff p (is_blank name) start n).1
              (named, long, (omega (arith, day.whole), omega arith))),
        confirmed p f start,
        handle_confirm_read p f start read,
        refl,
        refl,
        ap (λ d. scale d 60000) (or_hour_pos n (omega arith)),
        refl,
      )

  module _ (today close_hour now : ℕ) (s : Slot) (late : 172800000 ≤ now)
      (offered : Any (λ x. x ≡ s) (free_slots zone today bookings close_hour now open_hour)) where
    offered-IsBookable : IsBookable now (start_of_day zone today open_hour) bookings s
    offered-IsBookable =
        All-Any (IsBookable now (start_of_day zone today open_hour) bookings) s _
          (free_slots-IsBookable zone today bookings close_hour now open_hour) offered

    -- Two days after the epoch or later, with an opening hour of the clock and a name that is not blank:
    -- a free slot that lasts `n` minutes, at least 15 and below a day, can be booked for `n` minutes. The
    -- form that opens on it, after a name and the two parts of the duration are entered, goes on to the
    -- summary, and what is then sent is for the table, from the minute in which the slot starts, for `n`
    -- minutes, and in that name.
    pub free_slots_can_be_booked :
        n * 60000 ≤ s.duration_ms
        → Books (slot_props zone open_hour rate bookings table s) table s name n
    free_slots_can_be_booked room =
        let future = offered-IsBookable.future in slot_can_be_booked s (omega (arith, future)) room

    -- Where that slot starts with a minute, the time of the booking that these edits send to the server
    -- meets no booking of the table.
    pub booked_time_is_free :
        (s.start_timestamp + zone) % 60000 ≡ 0
        → n * 60000 ≤ s.duration_ms
        → (b : Books (slot_props zone open_hour rate bookings table s) table s name n)
        → All
            (λ other.
              ((create_booking b.3).check_out_time ≤ other.start_time)
              ⊎ (end_time other ≤ (create_booking b.3).check_in_time))
            bookings
    unfolding create_booking check_out_of ◌+ℤ◌
    booked_time_is_free whole room b =
        rw (b.6, b.7)
          (All-imp (Apart s) _ (λ other apart. ground (arith, apart)) bookings
            offered-IsBookable.apart)
