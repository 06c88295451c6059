-- ===== src/Backend/Scheduler/Tick.antt =====
-- What a tick of the scheduler does to the state of each table.
use gbc_smart_management.Base.{
  ℕ, suc, ◌≤◌, leb, ◌==◌, Bool, true, ◌&&◌, ◌≡◌, inl, inr, refl, ◌∙◌, ap, arith, List, Option, none,
  some, if◌then◌else◌, ==_iff, Option-cases, Bool-cases,
}
use gbc_smart_management.Backend.Rows.{Row, find_current}
use gbc_smart_management.Backend.Tables.{
  TableCell, Occupancy, available, busy, LiveBooking, live_of, get_table, activate_table,
  deactivate_table, occupied_by, vacated, put_cell, broadcast, send_command,
}
use gbc_smart_management.Backend.Scheduler.{
  Scheduler, Reads, reschedule_table, schedule_next, set_start_timer, set_end_timer,
  clear_table_timers, with_tables, expire, catch_up, reconcile_as, reconcile_table, reconcile,
}

-- The state of a table after a tick, by the rows and its state before.
abbrev pub tick_as : ℕ → ℕ → List Row → Occupancy → Option LiveBooking → TableCell → TableCell
tick_as now i rows available current t = elim (find_current i now rows) [
  | none ↦ t
  | some r ↦ occupied_by (live_of r) t
]
tick_as now i rows busy none t = t
tick_as now i rows busy (some b) t = if leb b.check_out now then vacated t else t

abbrev pub ticked : ℕ → ℕ → List Row → TableCell → TableCell
ticked now i rows t = tick_as now i rows t.occupancy t.current t

module _ (now : ℕ) (e : Reads) (i : ℕ) where
  pub schedule_next-venue :
      (reads : Bool) (s : Scheduler) → (schedule_next now i reads s).venue ≡ s.venue
  unfolding schedule_next set_start_timer
  schedule_next-venue reads s = ground arith

  reschedule_table-venue : (s : Scheduler) → (reschedule_table now e i s).venue ≡ s.venue
  unfolding reschedule_table clear_table_timers set_end_timer
  reschedule_table-venue s =
      ground (arith, schedule_next-venue e.reads_next (clear_table_timers i s))

  -- The rows stay, and the state of one table is replaced.
  abbrev pub Replaces : TableCell → Scheduler → Scheduler → Type 0
  Replaces t s u =
      (u.venue.rows ≡ s.venue.rows)
      × ((j : ℕ) → u.venue.tables.cell j ≡ (if j == i then t else s.venue.tables.cell j))

  unchanged : (s : Scheduler) → Replaces (s.venue.tables.cell i) s s
  unchanged s = (refl, λ j. ground arith)

  activated :
      (b : LiveBooking) (s : Scheduler)
      → Replaces
          (occupied_by b (s.venue.tables.cell i))
          s
          (reschedule_table now e i (with_tables (activate_table i b s.venue.tables) s))
  unfolding with_tables activate_table put_cell broadcast send_command
  activated b s =
      let after = with_tables (activate_table i b s.venue.tables) s in
      rw (reschedule_table-venue after) (refl, λ j. refl)

  deactivated :
      (s : Scheduler)
      → Replaces
          (vacated (s.venue.tables.cell i))
          s
          (reschedule_table now e i (with_tables (deactivate_table i s.venue.tables) s))
  unfolding with_tables deactivate_table put_cell broadcast send_command
  deactivated s =
      let after = with_tables (deactivate_table i s.venue.tables) s in
      rw (reschedule_table-venue after) (refl, λ j. refl)

  expire-Replaces :
      (b : LiveBooking) (s : Scheduler)
      → let t = s.venue.tables.cell i in
        Replaces (if leb b.check_out now then vacated t else t) s (expire now e i b s)
  unfolding expire
  expire-Replaces b s = elim (Bool-cases (leb b.check_out now)) [
    | inl over ↦ rw over (deactivated s)
    | inr going ↦ rw going (unchanged s)
  ]

  catch_up-none :
      (s : Scheduler)
      → e.reads_current ≡ true
      → find_current i now s.venue.rows ≡ none
      → catch_up now e i s ≡ s
  unfolding catch_up
  catch_up-none s reads free = ground arith

  catch_up-some :
      (s : Scheduler) (r : Row)
      → e.reads_current ≡ true
      → find_current i now s.venue.rows ≡ some r
      → catch_up now e i s
        ≡ reschedule_table now e i (with_tables (activate_table i (live_of r) s.venue.tables) s)
  unfolding catch_up
  catch_up-some s r reads due = ground arith

  catch_up-Replaces :
      (s : Scheduler)
      → e.reads_current ≡ true
      → let t = s.venue.tables.cell i in
        Replaces
          (elim (find_current i now s.venue.rows) [ none ↦ t | some r ↦ occupied_by (live_of r) t ])
          s
          (catch_up now e i s)
  catch_up-Replaces s reads = elim (Option-cases (find_current i now s.venue.rows)) [
    | inl free ↦ rw (catch_up-none s reads free, free) (unchanged s)
    | inr (r, due) ↦ rw (catch_up-some s r reads due, due) (activated (live_of r) s)
  ]

  reconcile_as-Replaces :
      (o : Occupancy) (current : Option LiveBooking) (s : Scheduler)
      → e.reads_current ≡ true
      → Replaces
          (tick_as now i s.venue.rows o current (s.venue.tables.cell i))
          s
          (reconcile_as now e i o current s)
  unfolding reconcile_as
  reconcile_as-Replaces available current s reads = catch_up-Replaces s reads
  reconcile_as-Replaces busy none s reads = unchanged s
  reconcile_as-Replaces busy (some b) s reads = expire-Replaces b s

  reconcile_table_cell :
      (s : Scheduler)
      → 1 ≤ i
      → i ≤ 4
      → let t = s.venue.tables.cell i in
        reconcile_table now e i s ≡ reconcile_as now e i t.occupancy t.current s
  unfolding reconcile_table get_table
  reconcile_table_cell s least most = ground arith

  pub reconcile_table-Replaces :
      (s : Scheduler)
      → 1 ≤ i
      → i ≤ 4
      → e.reads_current ≡ true
      → Replaces (ticked now i s.venue.rows (s.venue.tables.cell i)) s (reconcile_table now e i s)
  reconcile_table-Replaces s least most reads =
      let t = s.venue.tables.cell i in
      rw (reconcile_table_cell s least most) (reconcile_as-Replaces t.occupancy t.current s reads)

-- The first `k` tables have had their tick.
abbrev pub Ticks : ℕ → ℕ → Scheduler → Scheduler → Type 0
Ticks now k s u =
    (u.venue.rows ≡ s.venue.rows)
    × ((j : ℕ)
        → u.venue.tables.cell j ≡ (
            if leb 1 j && leb j k
            then ticked now j s.venue.rows (s.venue.tables.cell j)
            else s.venue.tables.cell j))

Ticks-next :
    (now k : ℕ) (e : Reads) (s u : Scheduler)
    → suc k ≤ 4
    → e.reads_current ≡ true
    → Ticks now k s u
    → Ticks now (suc k) s (reconcile_table now e (suc k) u)
Ticks-next now k e s u most reads h =
    let step = reconcile_table-Replaces now e (suc k) u (omega arith) most reads in
    let own : u.venue.tables.cell (suc k) ≡ s.venue.tables.cell (suc k) =
      ground (arith, h.1 (suc k)) in
    let same_tick : ticked now (suc k) u.venue.rows (u.venue.tables.cell (suc k))
        ≡ ticked now (suc k) s.venue.rows (s.venue.tables.cell (suc k)) =
      ap (ticked now (suc k) u.venue.rows) own
      ∙ ap (λ rows. ticked now (suc k) rows (s.venue.tables.cell (suc k))) h.0 in
    (
      step.0 ∙ h.0,
      λ j. elim (Bool-cases (j == suc k)) [
        | inl same ↦
            let here : j ≡ suc k = (==_iff j (suc k)).0 same in
            rw here (ground (arith, step.1 (suc k), same_tick))
        | inr other ↦ ground (arith, step.1 j, h.1 j)
      ],
    )

-- A tick gives each table the state that its rows and its state before ask for.
pub reconcile-ticked :
    (now : ℕ) (e : ℕ → Reads) (s : Scheduler)
    → ((i : ℕ) → (e i).reads_current ≡ true)
    → Ticks now 4 s (reconcile now e s)
unfolding reconcile
reconcile-ticked now e s reads = Ticks-next now 3 (e 4) s _ (omega arith) (reads 4) (
    Ticks-next now 2 (e 3) s _ (omega arith) (reads 3) (
      Ticks-next now 1 (e 2) s _ (omega arith) (reads 2)
        (Ticks-next now 0 (e 1) s s (omega arith) (reads 1) (refl, λ j. ground arith))))
