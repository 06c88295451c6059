-- ===== src/Backend/Scheduler/Handover.antt =====
-- A booking that starts when another one ends.
use gbc_smart_management.Base.{
  ℕ, ◌≤◌, ◌<◌, leb, Bool, true, false, ◌≡◌, ◌⊎◌, inl, inr, refl, ◌∙◌, ap, arith, List, [], ◌∷◌,
  Option, none, some, String, str_eq, Bool-cases, Option-cases, max, subst, sym, Any, filter_by,
}
use gbc_smart_management.Backend.Rows.{
  Row, is_current, find_current, find_next_upcoming, is_upcoming, earliest, earlier_of,
}
use gbc_smart_management.Backend.Tables.{
  Tables, busy, LiveBooking, get_table, deactivate_table, put_cell, broadcast, send_command,
  vacated,
}
use gbc_smart_management.Backend.Bookings.{Venue, shows_booking}
use gbc_smart_management.Backend.Scheduler.{
  Scheduler, Timer, Reads, reconcile, handle_end_fired, end_booking, schedule_next, set_start_timer,
  with_tables, is_busy, put,
}
use gbc_smart_management.Backend.Scheduler.Tick.{reconcile-ticked, ticked, schedule_next-venue}
use gbc_smart_management.Backend.Scheduler.Settling.{Shows, table_ticked, tick_free, found_current}
use gbc_smart_management.Backend.Concurrent.Rows.{AllApart}

current_later :
    (i now later : ℕ) (r : Row)
    → is_current i now r ≡ true
    → now ≤ later
    → later < r.check_out
    → is_current i later r ≡ true
unfolding is_current
current_later i now later r due after_now within = ground arith

module _ (i now : ℕ) where
  earlier_of-check_in :
      (q : Row) (m : Option Row) (r : Row)
      → now < q.check_in
      → ((p : Row) → m ≡ some p → now < p.check_in)
      → earlier_of q m ≡ some r
      → now < r.check_in
  unfolding earlier_of
  earlier_of-check_in q none r h k e =
      let same : q ≡ r = cc e in subst (λ (x : Row). now < x.check_in) same h
  earlier_of-check_in q (some p) r h k e = elim (Bool-cases (leb q.check_in p.check_in)) [
    | inl first ↦ let same : q ≡ r = cc (first, e) in subst (λ (x : Row). now < x.check_in) same h
    | inr last ↦
        let same : p ≡ r = cc (last, e) in subst (λ (x : Row). now < x.check_in) same (k p refl)
  ]

  upcoming_first :
      (q : Row) (rows : List Row)
      → is_upcoming i now q ≡ true
      → find_next_upcoming i now (q ∷ rows) ≡ earlier_of q (find_next_upcoming i now rows)
  unfolding find_next_upcoming earliest filter_by
  upcoming_first q rows asked = rw asked refl

  upcoming_later :
      (q : Row) (rows : List Row)
      → is_upcoming i now q ≡ false
      → find_next_upcoming i now (q ∷ rows) ≡ find_next_upcoming i now rows
  unfolding find_next_upcoming filter_by
  upcoming_later q rows other = rw other refl

  upcoming_starts : (q : Row) → is_upcoming i now q ≡ true → now < q.check_in
  unfolding is_upcoming
  upcoming_starts q asked = ground arith

  find_next_upcoming-check_in :
      (rows : List Row) (r : Row) → find_next_upcoming i now rows ≡ some r → now < r.check_in
  unfolding find_next_upcoming earliest filter_by
  find_next_upcoming-check_in [] r h = cc
  find_next_upcoming-check_in (q ∷ rows) r h = elim (Bool-cases (is_upcoming i now q)) [
    | inl asked ↦
        earlier_of-check_in q (find_next_upcoming i now rows) r (upcoming_starts q asked)
          (find_next_upcoming-check_in rows) (sym (upcoming_first q rows asked) ∙ h)
    | inr other ↦ find_next_upcoming-check_in rows r (sym (upcoming_later q rows other) ∙ h)
  ]

  -- The timer of the next start, where one is set, is for a time to come.
  schedule_next-due :
      (reads : Bool) (s : Scheduler)
      → s.start_timer i ≡ none
      → ((schedule_next now i reads s).start_timer i ≡ none)
        ⊎ ((t : Timer) × ((schedule_next now i reads s).start_timer i ≡ some t) × (now < t.due))
  unfolding schedule_next set_start_timer
  schedule_next-due false s free = inl free
  schedule_next-due true s free = elim (Option-cases (find_next_upcoming i now s.venue.rows)) [
    | inl nothing ↦ inl (rw (schedule_next, nothing) free)
    | inr (r, next) ↦
        let later = find_next_upcoming-check_in s.venue.rows r next in
        inr (
          record { booking_id = r.id; due = max now r.check_in },
          rw (schedule_next, next) (ground arith),
          omega (arith, later),
        )
  ]

  -- The table of the booking that ends is available.
  end_booking-cell :
      (id : String) (tables : Tables) (b : LiveBooking)
      → 1 ≤ i
      → i ≤ 4
      → (tables.cell i).occupancy ≡ busy
      → (tables.cell i).current ≡ some b
      → str_eq b.booking_id id ≡ true
      → (end_booking i id tables).cell i ≡ vacated (tables.cell i)
  unfolding end_booking get_table shows_booking is_busy deactivate_table put_cell broadcast
      send_command
  end_booking-cell id tables b least most taken shows own = ground arith

-- The timer of the end of a booking fires when the table shows it, no start is set for the table, and
-- another booking of the table, with which no other one shares a time, covers the moment, as one does that
-- starts with that end. Then the table is available and no start is set for a time that has come; the first
-- tick while the booking lasts, with a database that answers, makes the table busy with it.
pub next_booking_waits_for_tick :
    (now later i : ℕ) (e : Reads) (e' : ℕ → Reads) (id : String) (s : Scheduler) (b : LiveBooking)
    (r : Row)
    → 1 ≤ i
    → i ≤ 4
    → (s.venue.tables.cell i).occupancy ≡ busy
    → (s.venue.tables.cell i).current ≡ some b
    → str_eq b.booking_id id ≡ true
    → s.start_timer i ≡ none
    → AllApart s.venue.rows
    → Any (λ q. q ≡ r) s.venue.rows
    → is_current i now r ≡ true
    → now ≤ later
    → later < r.check_out
    → ((j : ℕ) → (e' j).reads_current ≡ true)
    → let after = handle_end_fired now e i id s in
      Shows none (after.venue.tables.cell i)
      × ((after.start_timer i ≡ none)
          ⊎ ((t : Timer) × (after.start_timer i ≡ some t) × (now < t.due)))
      × Shows (some r) ((reconcile later e' after).venue.tables.cell i)
unfolding handle_end_fired with_tables vacated
next_booking_waits_for_tick now later i e e' id s b r least most taken shows own free apart there
      due after_now within reads =
    let ended = end_booking i id s.venue.tables in
    let fired : Scheduler = with_tables ended (record s { end_timer = put i none s.end_timer }) in
    let u = schedule_next now i e.reads_next fired in
    let venue = schedule_next-venue now e i e.reads_next fired in
    let cell : u.venue.tables.cell i ≡ vacated (s.venue.tables.cell i) =
      ap (λ (v : Venue). v.tables.cell i) venue
      ∙ end_booking-cell i now id s.venue.tables b least most taken shows own in
    let same : u.venue.rows ≡ s.venue.rows = ap (λ (v : Venue). v.rows) venue in
    let empty : Shows none (u.venue.tables.cell i) = rw cell (refl, refl) in
    let found : find_current i later u.venue.rows ≡ some r =
      ap (find_current i later) same
      ∙ found_current later i s.venue.rows r apart there
          (current_later i now later r due after_now within) in
    let t = u.venue.tables.cell i in
    let tick = table_ticked i least most _ _ ((reconcile-ticked later e' u reads).1 i) in
    let shown = tick_free later i u.venue.rows t t.occupancy t.current empty.0 empty in
    (
      empty,
      schedule_next-due i now e.reads_next fired free,
      rw tick (subst (λ o. Shows o (ticked later i u.venue.rows t)) found shown),
    )
