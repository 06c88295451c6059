-- ===== src/Backend/Acceptance.antt =====
-- From the timeline to the server: what the form sends for a free slot is accepted.
use gbc_smart_management.Base.{
  ℕ, ◌+◌, ◌*◌, ◌/◌, ◌%◌, ◌≤◌, ◌<◌, ◌==◌, true, false, ◌&&◌, ◌≡◌, ◌⊎◌, inl, inr, refl, ap, ◌∙◌,
  arith, List, [], ◌∷◌, none, some, String, str_eq, Text, is_blank, is_empty, All, Any, some_by,
  ◌+ℤ◌,
}
use gbc_smart_management.Api.{CreatePayload, create_booking, check_out_of}
use gbc_smart_management.Timeline.{Booking, end_time}
use gbc_smart_management.Slots.{Slot, free_slots}
use gbc_smart_management.BookingForm.Bookable.{Books, slot_props, booked_time_is_free}
use gbc_smart_management.Backend.Rows.{Row, active, is_live, overlaps, has_overlap, is_excluded}
use gbc_smart_management.Backend.Days.{day_start}
use gbc_smart_management.Backend.Bookings.{
  Venue, at, CreateInput, Circumstances, ok, check_create, write_create, parse_times, read_time,
  minutes_between, is_past_day, overlap_check, config_read, is_given,
}
use gbc_smart_management.Backend.Handlers.{handle_create, body_status, then_write}

-- The body of the request, as the handler reads it: a time's text is the one of `toISOString`.
unfoldable pub as_input : CreatePayload → CreateInput
as_input p = record {
  table_id = p.table_id;
  booker_name = p.booker_name;
  booker_mobile = p.booker_mobile;
  check_in = at p.check_in_time;
  check_out = at p.check_out_time;
  amount = p.amount;
  is_paid = p.is_paid;
}

-- The page shows each row of the table that is not cancelled.
abbrev pub ShownBy : List Booking → ℕ → Row → Type 0
ShownBy bookings table r =
    ((r.table_id == table && is_live r.status) ≡ false)
    ⊎ Any (λ b. (b.start_time ≡ r.check_in) × (end_time b ≡ r.check_out)) bookings

abbrev pub IsApartFrom : ℕ → ℕ → Booking → Type 0
IsApartFrom check_in check_out b = (check_out ≤ b.start_time) ⊎ (end_time b ≤ check_in)

apart_of_shown :
    (bookings : List Booking) (check_in check_out : ℕ) (r : Row)
    → All (IsApartFrom check_in check_out) bookings
    → Any (λ b. (b.start_time ≡ r.check_in) × (end_time b ≡ r.check_out)) bookings
    → (check_out ≤ r.check_in) ⊎ (r.check_out ≤ check_in)
apart_of_shown [] check_in check_out r apart shown = absurd shown
apart_of_shown (b ∷ bookings) check_in check_out r apart (inl same) =
    ground (arith, apart.0, same.0, same.1)
apart_of_shown (b ∷ bookings) check_in check_out r apart (inr shown) =
    apart_of_shown bookings check_in check_out r apart.1 shown

free_of_row :
    (bookings : List Booking) (table check_in check_out : ℕ) (r : Row)
    → All (IsApartFrom check_in check_out) bookings
    → ShownBy bookings table r
    → overlaps table check_in check_out none r ≡ false
unfolding overlaps is_excluded
free_of_row bookings table check_in check_out r apart (inl elsewhere) = ground arith
free_of_row bookings table check_in check_out r apart (inr shown) =
    ground (arith, apart_of_shown bookings check_in check_out r apart shown)

no_overlap_shown :
    (bookings : List Booking) (table check_in check_out : ℕ) (rows : List Row)
    → All (IsApartFrom check_in check_out) bookings
    → All (ShownBy bookings table) rows
    → has_overlap table check_in check_out none rows ≡ false
unfolding has_overlap some_by
no_overlap_shown bookings table check_in check_out [] apart shown = refl
no_overlap_shown bookings table check_in check_out (r ∷ rows) apart shown =
    rw (free_of_row bookings table check_in check_out r apart shown.0)
      (no_overlap_shown bookings table check_in check_out rows apart shown.1)

-- The database answers.
abbrev pub Answers : Circumstances → Type 0
Answers e = (e.reads_overlap ≡ true) × (e.writes ≡ true)

-- The restriction by the role does not apply.
abbrev pub MayBook : ℕ → Circumstances → String → ℕ → Venue → Type 0
MayBook zone e role check_in v =
    (str_eq role "admin" ≡ true) ⊎ (day_start zone (e.now / 86400000) (config_read e v) ≤ check_in)

MayBook-is_past_day :
    (zone : ℕ) (e : Circumstances) (role : String) (check_in : ℕ) (v : Venue)
    → MayBook zone e role check_in v
    → is_past_day zone e role check_in v ≡ false
unfolding is_past_day
MayBook-is_past_day zone e role check_in v (inl admin) = rw admin (ground arith)
MayBook-is_past_day zone e role check_in v (inr today) = ground arith

-- A body with all it needs, for a time that is free.
module _ (zone : ℕ) (e : Circumstances) (id by role : String) (v : Venue) (d : CreateInput)
    (check_in check_out : ℕ) where
  created : Row
  created = record {
    id = id;
    table_id = d.table_id;
    booker_name = d.booker_name;
    booker_mobile = d.booker_mobile;
    check_in = check_in;
    check_out = check_out;
    duration_minutes = minutes_between check_in check_out;
    amount = d.amount;
    is_paid = d.is_paid;
    status = active;
    created_by = by;
    created_at = e.now;
  }

  minute_or_more : check_in + 60000 ≤ check_out → (minutes_between check_in check_out == 0) ≡ false
  unfolding minutes_between
  minute_or_more h = ground arith

  pub accepted :
      Answers e
      → d.check_in ≡ at check_in
      → d.check_out ≡ at check_out
      → body_status d ≡ true
      → check_in + 60000 ≤ check_out
      → is_past_day zone e role check_in v ≡ false
      → has_overlap d.table_id check_in check_out none v.rows ≡ false
      → (r : Row) × ((handle_create zone e id (some d) by role v).0 ≡ ok r)
        × (r.id ≡ id)
        × (r.table_id ≡ d.table_id)
        × (r.check_in ≡ check_in)
        × (r.check_out ≡ check_out)
  unfolding handle_create then_write check_create parse_times read_time overlap_check write_create
      created
  accepted answers start end body long today free = (
    created,
    rw (body, start, end, minute_or_more long, today, free, answers.0, answers.1) refl,
    refl,
    refl,
    refl,
    refl,
  )

name_not_empty : (name : Text) → is_blank name ≡ false → is_empty name ≡ false
unfolding is_blank
name_not_empty [] h = cc
name_not_empty (c ∷ name) h = refl

module _ (zone open_hour rate : ℕ) (bookings : List Booking) (table : ℕ) (name : Text) (n : ℕ)
    (hour : open_hour < 24) (named : is_blank name ≡ false) (long : 15 ≤ n) (below_day : n < 1440)
    (today close_hour now : ℕ) (s : Slot) (late : 172800000 ≤ now)
    (offered : Any (λ x. x ≡ s) (free_slots zone today bookings close_hour now open_hour))
    (whole : (s.start_timestamp + zone) % 60000 ≡ 0) (room : n * 60000 ≤ s.duration_ms)
    (b : Books (slot_props zone open_hour rate bookings table s) table s name n) where
  sent_body : 1 ≤ table → table ≤ 4 → body_status (as_input (create_booking b.3)) ≡ true
  unfolding body_status as_input create_booking is_given
  sent_body least most = rw (b.5, b.8, name_not_empty name named) (ground arith)

  sent_time :
      ((create_booking b.3).check_in_time ≡ s.start_timestamp)
      × ((create_booking b.3).check_out_time ≡ s.start_timestamp + n * 60000)
  unfolding create_booking check_out_of ◌+ℤ◌
  sent_time = rw (b.6, b.7) (ground arith)

  sent_table : (create_booking b.3).table_id ≡ table
  unfolding create_booking
  sent_table = b.5

  -- The server accepts it where no row of the table meets its time.
  pub free_slot_is_accepted :
      (e : Circumstances) (id by role : String) (v : Venue)
      → 1 ≤ table
      → table ≤ 4
      → has_overlap table s.start_timestamp (s.start_timestamp + n * 60000) none v.rows ≡ false
      → Answers e
      → MayBook zone e role s.start_timestamp v
      → (r : Row) × ((handle_create zone e id (some (as_input (create_booking b.3))) by role v).0
          ≡ ok r)
        × (r.table_id ≡ table)
        × (r.check_in ≡ s.start_timestamp)
        × (r.check_out ≡ s.start_timestamp + n * 60000)
  unfolding as_input
  free_slot_is_accepted e id by role v least most free answers may =
      let d = as_input (create_booking b.3) in
      let start = s.start_timestamp in
      let (r, e1, e2, e3, e4, e5) =
        accepted zone e id by role v d start (start + n * 60000) answers (ap at sent_time.0)
          (ap at sent_time.1) (sent_body least most) (omega (arith, long))
          (MayBook-is_past_day zone e role start v may) (rw sent_table free) in
      (r, e1, e3 ∙ sent_table, e4, e5)

  -- Its time is apart from each booking that the page shows.
  pub offered_time-apart :
      All (IsApartFrom s.start_timestamp (s.start_timestamp + n * 60000)) bookings
  offered_time-apart =
      let free =
        booked_time_is_free zone open_hour rate bookings table name n hour named long below_day
          today close_hour now s late offered whole room b in
      rw (sent_time.0, sent_time.1) at free

  -- Two days after the epoch or later, with an opening hour of the clock, a table from 1 to 4, a name that
  -- is not blank and a free slot that starts with a minute and lasts `n` minutes, at least 15 and below
  -- a day. Let the page show each booking that the server has for the table and that is not cancelled,
  -- let the database answer, and let the user be an administrator or the slot start in the operational
  -- day of the server or later. Then the server answers what the form sends for the slot with a row for
  -- the table that starts with the slot and lasts `n` minutes.
  pub offered_slot_is_accepted :
      (e : Circumstances) (id by role : String) (v : Venue)
      → 1 ≤ table
      → table ≤ 4
      → All (ShownBy bookings table) v.rows
      → Answers e
      → MayBook zone e role s.start_timestamp v
      → (r : Row) × ((handle_create zone e id (some (as_input (create_booking b.3))) by role v).0
          ≡ ok r)
        × (r.table_id ≡ table)
        × (r.check_in ≡ s.start_timestamp)
        × (r.check_out ≡ s.start_timestamp + n * 60000)
  offered_slot_is_accepted e id by role v least most shown answers may =
      let end = s.start_timestamp + n * 60000 in
      free_slot_is_accepted e id by role v least most
        (no_overlap_shown bookings table s.start_timestamp end v.rows offered_time-apart shown)
        answers may
