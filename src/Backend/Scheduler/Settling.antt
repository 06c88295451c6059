-- ===== src/Backend/Scheduler/Settling.antt =====
-- After two ticks the tables are as the rows of the bookings ask for.
use gbc_smart_management.Base.{
  ℕ, ◌≤◌, leb, true, false, ◌&&◌, ◌≡◌, ◌⊎◌, inl, inr, refl, sym, ◌∙◌, ap, subst, arith, List, [],
  ◌∷◌, Option, none, some, if◌then◌else◌, Bool-cases, All, Any, All-Any, All-find_by, find_by,
  find_by-test, find_by-none,
}
use gbc_smart_management.Backend.Rows.{Row, is_live, is_current, find_current}
use gbc_smart_management.Backend.Tables.{
  TableCell, Occupancy, available, busy, LiveBooking, live_of, occupied_by, vacated, to_second,
}
use gbc_smart_management.Backend.Scheduler.{Scheduler, Reads, reconcile}
use gbc_smart_management.Backend.Scheduler.Tick.{tick_as, ticked, reconcile-ticked}
use gbc_smart_management.Backend.Concurrent.Rows.{AllApart, FitsWith, conflicts}

-- What a table shows for the row that is due.
abbrev pub Shows : Option Row → TableCell → Type 0
Shows none t = (t.occupancy ≡ available) × (t.current ≡ none)
Shows (some r) t = (t.occupancy ≡ busy) × (t.current ≡ some (live_of r))

-- The table shows nothing, or one of its rows that is not cancelled and has begun.
abbrev pub IsBegun : ℕ → ℕ → Row → Type 0
IsBegun now i r = (r.table_id ≡ i) × (is_live r.status ≡ true) × (r.check_in ≤ now)

abbrev pub ShowsOwn : ℕ → ℕ → List Row → TableCell → Type 0
ShowsOwn now i rows t =
    Shows none t ⊎ ((r : Row) × Shows (some r) t × Any (λ q. q ≡ r) rows × IsBegun now i r)

module _ (now i : ℕ) where
  conflict_now :
      (p r : Row) → is_current i now p ≡ true → is_current i now r ≡ true → conflicts p r ≡ true
  unfolding is_current conflicts
  conflict_now p r h k = ground arith

  -- Of rows that share no time, one that is current is the one that is found.
  pub found_current :
      (rows : List Row) (r : Row)
      → AllApart rows
      → Any (λ q. q ≡ r) rows
      → is_current i now r ≡ true
      → find_current i now rows ≡ some r
  unfolding find_current find_by
  found_current [] r apart there current = absurd there
  found_current (p ∷ rows) r apart (inl same) current =
      rw (ap (is_current i now) same ∙ current) (ap some same)
  found_current (p ∷ rows) r apart (inr there) current = elim (Bool-cases (is_current i now p)) [
    | inl both ↦
        cc (conflict_now p r both current, (All-Any (FitsWith p) r rows apart.0 there).apart)
    | inr other ↦ rw other (found_current rows r apart.1 there current)
  ]

  current_test :
      (rows : List Row) (r : Row) → find_current i now rows ≡ some r → is_current i now r ≡ true
  unfolding find_current
  current_test rows r h = find_by-test (is_current i now) rows r h

module _ (now i : ℕ) (rows : List Row) (t : TableCell) where
  taken_up :
      (due : Option Row)
      → Shows none t
      → Shows due (elim due [ none ↦ t | some r ↦ occupied_by (live_of r) t ])
  unfolding occupied_by
  taken_up none h = h
  taken_up (some r) h = (refl, refl)

  pub tick_free :
      (o : Occupancy) (current : Option LiveBooking)
      → o ≡ available
      → Shows none t
      → Shows (find_current i now rows) (tick_as now i rows o current t)
  tick_free available current e h = taken_up (find_current i now rows) h
  tick_free busy current e h = cc

  tick_over :
      (o : Occupancy) (current : Option LiveBooking) (b : LiveBooking)
      → o ≡ busy
      → current ≡ some b
      → leb b.check_out now ≡ true
      → Shows none (tick_as now i rows o current t)
  unfolding vacated
  tick_over available current b e f over = cc
  tick_over busy none b e f over = cc
  tick_over busy (some c) b e f over =
      let same : c ≡ b = cc f in
      rw (ap (λ (x : LiveBooking). leb x.check_out now) same ∙ over) (refl, refl)

  pub tick_going :
      (o : Occupancy) (current : Option LiveBooking) (b : LiveBooking)
      → o ≡ busy
      → current ≡ some b
      → leb b.check_out now ≡ false
      → tick_as now i rows o current t ≡ t
  tick_going available current b e f going = cc
  tick_going busy none b e f going = cc
  tick_going busy (some c) b e f going =
      let same : c ≡ b = cc f in
      rw (ap (λ (x : LiveBooking). leb x.check_out now) same ∙ going) refl

-- A booking is due at one of the two times at most, or the same at both.
abbrev pub IsSteady : ℕ → ℕ → ℕ → List Row → Type 0
IsSteady now later i rows =
    (find_current i now rows ≡ none)
    ⊎ (find_current i later rows ≡ none)
    ⊎ (find_current i now rows ≡ find_current i later rows)

-- The end of the row is a whole second.
abbrev pub IsWhole : Row → Type 0
IsWhole r = to_second r.check_out ≡ r.check_out

module _ (now i : ℕ) (rows : List Row) (whole : All IsWhole rows) where
  found_going : (r : Row) → find_current i now rows ≡ some r → leb (live_of r).check_out now ≡ false
  unfolding live_of is_current
  found_going r h =
      let current = current_test now i rows r h in
      let second : IsWhole r =
        All-find_by (is_current i now) IsWhole rows r whole (unfold find_current in h) in
      ground arith

  -- A table that shows the row that is due keeps it.
  tick_keeps :
      (t : TableCell) (due : Option Row)
      → find_current i now rows ≡ due
      → Shows due t
      → Shows due (ticked now i rows t)
  tick_keeps t none e h =
      subst (λ o. Shows o (ticked now i rows t)) e
        (tick_free now i rows t t.occupancy t.current h.0 h)
  tick_keeps t (some r) e h =
      subst (Shows (some r))
        (sym (tick_going now i rows t t.occupancy t.current (live_of r) h.0 h.1 (found_going r e)))
        h

  tick_own :
      (t : TableCell) (r : Row)
      → AllApart rows
      → Any (λ q. q ≡ r) rows
      → IsBegun now i r
      → Shows (some r) t
      → Shows none (ticked now i rows t) ⊎ Shows (find_current i now rows) (ticked now i rows t)
  unfolding is_current live_of
  tick_own t r apart there begun h = elim (Bool-cases (leb (live_of r).check_out now)) [
    | inl over ↦ inl (tick_over now i rows t t.occupancy t.current (live_of r) h.0 h.1 over)
    | inr going ↦
        let second : IsWhole r = All-Any IsWhole r rows whole there in
        let found : find_current i now rows ≡ some r =
          found_current now i rows r apart there (ground arith) in
        inr (rw found (tick_keeps t (some r) found h))
  ]

  -- After one tick, the table shows nothing, or the row that is due.
  tick_settles :
      (t : TableCell)
      → AllApart rows
      → ShowsOwn now i rows t
      → Shows none (ticked now i rows t) ⊎ Shows (find_current i now rows) (ticked now i rows t)
  tick_settles t apart (inl free) = inr (tick_free now i rows t t.occupancy t.current free.0 free)
  tick_settles t apart (inr (r, h, there, begun)) = tick_own t r apart there begun h

module _ (now later i : ℕ) (rows : List Row) (whole : All IsWhole rows) (order : now ≤ later) where
  -- A row that was due, where none is due later, is over then.
  found_over :
      (r : Row)
      → find_current i now rows ≡ some r
      → find_current i later rows ≡ none
      → leb (live_of r).check_out later ≡ true
  unfolding live_of is_current
  found_over r h gone =
      let current = current_test now i rows r h in
      let ended : is_current i later r ≡ false =
        All-find_by (is_current i now) (λ q. is_current i later q ≡ false) rows r
          (find_by-none (is_current i later) rows (unfold find_current in gone))
          (unfold find_current in h) in
      let second : IsWhole r =
        All-find_by (is_current i now) IsWhole rows r whole (unfold find_current in h) in
      ground arith

  tick_over_at :
      (u : TableCell) (due : Option Row)
      → find_current i now rows ≡ due
      → find_current i later rows ≡ none
      → Shows due u
      → Shows none (ticked later i rows u)
  tick_over_at u none e gone h =
      subst (λ o. Shows o (ticked later i rows u)) gone
        (tick_free later i rows u u.occupancy u.current h.0 h)
  tick_over_at u (some r) e gone h =
      tick_over later i rows u u.occupancy u.current (live_of r) h.0 h.1 (found_over r e gone)

  pub two_ticks :
      (t : TableCell)
      → AllApart rows
      → ShowsOwn now i rows t
      → IsSteady now later i rows
      → Shows (find_current i later rows) (ticked later i rows (ticked now i rows t))
  two_ticks t apart own steady =
      let u = ticked now i rows t in
      let from_free : Shows none u → Shows (find_current i later rows) (ticked later i rows u) =
        λ free. tick_free later i rows u u.occupancy u.current free.0 free in
      elim (tick_settles now i rows whole t apart own) [
        | inl free ↦ from_free free
        | inr shown ↦ elim steady [
          | inl none_due ↦ from_free (subst (λ o. Shows o u) none_due shown)
          | inr (inl gone) ↦
              subst (λ o. Shows o (ticked later i rows u)) (sym gone)
                (tick_over_at u _ refl gone shown)
          | inr (inr same) ↦
              tick_keeps later i rows whole u _ refl (subst (λ o. Shows o u) same shown)
        ]
      ]

pub table_ticked :
    (i : ℕ)
    → 1 ≤ i
    → i ≤ 4
    → {t : TableCell} (a b : TableCell) → t ≡ (if leb 1 i && leb i 4 then a else b)
    → t ≡ a
table_ticked i least most a b h = ground arith

-- Rows that share no time and end with whole seconds, and a table from 1 to 4 that shows nothing, or a row
-- of its own that is not cancelled and has begun: two ticks of the scheduler, the second no earlier than
-- the first, with a database that answers and the same rows. Where a booking is due at one of the ticks
-- at most, or the same at both, the table is, after the second tick, busy with the booking that
-- is not cancelled and covers the time of that tick, and available where there is none.
pub reconcile_twice-Shows :
    (now later i : ℕ) (e e' : ℕ → Reads) (s : Scheduler)
    → now ≤ later
    → 1 ≤ i
    → i ≤ 4
    → ((j : ℕ) → (e j).reads_current ≡ true)
    → ((j : ℕ) → (e' j).reads_current ≡ true)
    → AllApart s.venue.rows
    → All IsWhole s.venue.rows
    → ShowsOwn now i s.venue.rows (s.venue.tables.cell i)
    → IsSteady now later i s.venue.rows
    → Shows
        (find_current i later s.venue.rows)
        ((reconcile later e' (reconcile now e s)).venue.tables.cell i)
reconcile_twice-Shows now later i e e' s order least most reads reads' apart whole own steady =
    let once = reconcile-ticked now e s reads in
    let twice = reconcile-ticked later e' (reconcile now e s) reads' in
    let rows = s.venue.rows in
    let first = table_ticked i least most _ _ (once.1 i) in
    let second = table_ticked i least most _ _ (twice.1 i) in
    rw second (
      rw (once.0, first)
        (two_ticks now later i rows whole order (s.venue.tables.cell i) apart own steady))
