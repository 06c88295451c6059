-- ===== src/BookingForm/Submit.antt =====
-- What `handleSubmit` accepts, and what `handleConfirm` then hands over.
use gbc_smart_management.Base.{
  ℕ, zero, suc, ◌+◌, ◌-◌, ◌*◌, ◌≤◌, ◌<◌, ◌≡◌, ◌⊎◌, ◌↔◌, refl, Bool, true, false, arith, List, [],
  ◌∷◌, All, Option, none, some, find_by, eq_iff, ltb, if◌then◌else◌, is_blank, pos, scale,
}
use native.Mathlib.Decide.{dec_lt}
use gbc_smart_management.Timeline.{Booking, end_time}
use gbc_smart_management.Slots.{slot_end}
use gbc_smart_management.BookingForm.{Props, Form, Target, edit, create, BookingData, parse_in}
use gbc_smart_management.Submission.{
  Outcome, summary, rejected, missing_player, too_short, conflicts, check_target, handle_submit,
  handle_confirm, next_day_if_earlier, or_hour, table_of, or_zero,
}
use gbc_smart_management.BookingForm.Agreement.{Agrees}

-- Editing: every other booking of the table ends before or starts after. Creating: the check-in is at
-- most 15 minutes before the slot, and the check-out is within it.
abbrev pub Fits : List Booking → Target → ℕ → ℕ → Type 0
Fits bookings (edit e) start finish =
    All (λ b. (b.booking_id ≡ e.booking_id) ⊎ ((end_time b ≤ start) ⊎ (finish ≤ b.start_time)))
      bookings
Fits bookings (create table s) start finish =
    (s.start_timestamp ≤ start + 900000) × (finish ≤ slot_end s)

abbrev NoConflict : Booking → ℕ → ℕ → Booking → Type 0
NoConflict e start finish b =
    (b.booking_id ≡ e.booking_id) ⊎ ((end_time b ≤ start) ⊎ (finish ≤ b.start_time))

conflicts-false :
    (e : Booking) (start finish : ℕ) (b : Booking)
    → conflicts e start finish b ≡ false
    → NoConflict e start finish b
unfolding conflicts
conflicts-false e start finish b h = ground (arith, eq_iff b.booking_id e.booking_id)

conflicts_of :
    (e : Booking) (start finish : ℕ) (b : Booking)
    → NoConflict e start finish b
    → conflicts e start finish b ≡ false
unfolding conflicts
conflicts_of e start finish b h = ground (arith, eq_iff b.booking_id e.booking_id)

module _ (e : Booking) (start finish : ℕ) where
  find_none→All :
      (bs : List Booking)
      → find_by (conflicts e start finish) bs ≡ none
      → Fits bs (edit e) start finish
  unfolding find_by
  find_none→All [] h = tt
  find_none→All (b ∷ bs) h =
      let clear : conflicts e start finish b ≡ false = ground arith in
      (conflicts-false e start finish b clear, find_none→All bs (ground arith))

  All→find_none :
      (bs : List Booking)
      → Fits bs (edit e) start finish
      → find_by (conflicts e start finish) bs ≡ none
  unfolding find_by
  All→find_none [] h = refl
  All→find_none (b ∷ bs) h = rw (conflicts_of e start finish b h.0) (All→find_none bs h.1)

-- For a booking of 15 minutes or more, the checks of `handleSubmit` on the slot or on the other
-- bookings let it through exactly when it fits.
pub check_target_iff :
    (zone : ℕ) (bookings : List Booking) (t : Target) (start finish : ℕ)
    → start + 900000 ≤ finish
    → (check_target zone bookings t start finish ≡ summary) ↔ Fits bookings t start finish
unfolding check_target
check_target_iff zone bookings (edit e) start finish long = (
  λ h. find_none→All e start finish bookings (ground arith),
  λ h. rw (All→find_none e start finish bookings h, check_target),
)
check_target_iff zone bookings (create table s) start finish long =
    (λ h. ground arith, λ h. ground arith)

-- `handleSubmit` at times that have been read.
abbrev pub submitted : Props → Bool → ℕ → ℕ → Option Outcome
submitted p blank start check_out_ms =
    if blank
    then some (rejected missing_player)
    else if ltb (check_out_ms - start) (15 * 60000)
    then some (rejected too_short)
    else some (check_target p.zone p.table_bookings p.target start check_out_ms)

pub handle_submit_read :
    (p : Props) (f : Form) (start out : ℕ)
    → parse_in p f.check_in ≡ some start
    → parse_in p f.check_out ≡ some out
    → handle_submit p f ≡ submitted p (is_blank f.player) start (next_day_if_earlier start out)
unfolding handle_submit
handle_submit_read p f start out e1 e2 = rw (e1, e2)

pub submitted_iff :
    (p : Props) (blank : Bool) (start length_mins : ℕ)
    → (submitted p blank start (start + length_mins * 60000) ≡ some summary) ↔ (
        (blank ≡ false)
        × (15 ≤ length_mins)
        × Fits p.table_bookings p.target start (start + length_mins * 60000))
submitted_iff p true start n = (λ h. cc, λ h. cc)
submitted_iff p false start n = elim (dec_lt n 15) [
  | yes short ↦ (λ h. ground arith, λ h. absurd (omega arith))
  | no long ↦
      let check =
        check_target_iff p.zone p.table_bookings p.target start (start + n * 60000) (omega arith) in
      (λ h. (refl, omega arith, check.0 (ground arith)), λ h. ground (arith, check.1 h.2))
]

-- `handleConfirm` at a check-in that has been read.
abbrev pub confirmed : Props → Form → ℕ → BookingData
confirmed p f start = record {
  table_id = table_of p.target;
  player = f.player;
  mobile = f.mobile;
  start_time = start;
  duration = scale (or_hour f.duration_mins) 60000;
  amount = or_zero f.amount;
  paid = f.is_paid;
}

pub handle_confirm_read :
    (p : Props) (f : Form) (start : ℕ)
    → parse_in p f.check_in ≡ some start
    → handle_confirm p f ≡ some (confirmed p f start)
unfolding handle_confirm
handle_confirm_read p f start e = rw e

pub or_hour_pos : (n : ℕ) → 0 < n → or_hour (pos n) ≡ pos n
or_hour_pos zero h = absurd (omega arith)
or_hour_pos (suc n) h = refl

module _ (p : Props) (f : Form) (a : Agrees p f) where
  -- A form whose times and duration agree goes on to the summary exactly when it names a player, lasts
  -- 15 minutes at least, and fits.
  pub handle_submit_iff : (handle_submit p f ≡ some summary) ↔ (
      (is_blank f.player ≡ false)
      × (15 ≤ a.length_mins)
      × Fits p.table_bookings p.target a.start (a.start + a.length_mins * 60000))
  handle_submit_iff =
      rw (handle_submit_read p f a.start a.out a.read_in a.read_out, a.spans)
        (submitted_iff p (is_blank f.player) a.start a.length_mins)

  -- Where the times and the duration agree, and the form is accepted, what is then confirmed is the
  -- very time that was checked: it starts at the check-in, lasts 15 minutes at least, and fits.
  pub handle_confirm-Fits :
      handle_submit p f ≡ some summary
      → (d : BookingData) × (handle_confirm p f ≡ some d)
        × (d.duration ≡ pos (a.length_mins * 60000))
        × (15 ≤ a.length_mins)
        × Fits p.table_bookings p.target d.start_time (d.start_time + a.length_mins * 60000)
  unfolding scale
  handle_confirm-Fits h =
      let (named, long, fits) = handle_submit_iff.0 h in
      (
        confirmed p f a.start,
        handle_confirm_read p f a.start a.read_in,
        rw (a.duration, or_hour_pos a.length_mins a.positive),
        long,
        fits,
      )
