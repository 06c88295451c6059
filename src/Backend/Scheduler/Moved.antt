-- ===== src/Backend/Scheduler/Moved.antt =====
-- A booking that is moved while it runs.
use gbc_smart_management.Base.{ℕ, ◌≤◌, ◌<◌, true, ◌≡◌, refl, ◌∙◌, ap, arith, some, String}
use gbc_smart_management.Backend.Rows.{Row, save_row}
use gbc_smart_management.Backend.Tables.{Tables, TableCell, busy, LiveBooking}
use gbc_smart_management.Backend.Bookings.{
  Venue, UpdateInput, Circumstances, Answer, ok, failed, ◌&>◌, fetch_row, check_update,
  write_update, is_running, emit_timeline,
}
use gbc_smart_management.Backend.Handlers.{handle_update, then_write}
use gbc_smart_management.Backend.Scheduler.{Scheduler, Reads, reconcile}
use gbc_smart_management.Backend.Scheduler.Tick.{reconcile-ticked}
use gbc_smart_management.Backend.Scheduler.Settling.{table_ticked, tick_going}

emit_timeline-tables :
    (zone : ℕ) (e : Circumstances) (v : Venue) → (emit_timeline zone e v).tables ≡ v.tables
unfolding emit_timeline
emit_timeline-tables zone e v = ground arith

-- An update that succeeds gives the row it writes, and leaves the tables where the row is still to come.
write_update-tables :
    (zone : ℕ) (e : Circumstances) (q : Row) (v : Venue)
    → e.sync_now < q.check_in
    → (write_update zone e q v).1.tables ≡ v.tables
unfolding write_update is_running
write_update-tables zone e q v late =
    ground (arith, emit_timeline-tables zone e (record v { rows = save_row q v.rows }))

write_update-row :
    (zone : ℕ) (e : Circumstances) (q r : Row) (v : Venue)
    → (write_update zone e q v).0 ≡ ok r
    → q ≡ r
unfolding write_update
write_update-row zone e q r v h = ground arith

then_write-tables :
    (zone : ℕ) (e : Circumstances) (m : Answer Row) (r : Row) (v : Venue)
    → (then_write m (λ q. write_update zone e q v) v).0 ≡ ok r
    → e.sync_now < r.check_in
    → (then_write m (λ q. write_update zone e q v) v).1.tables ≡ v.tables
unfolding then_write
then_write-tables zone e (failed status) r v h late = refl
then_write-tables zone e (ok q) r v h late =
    let same = write_update-row zone e q r v h in write_update-tables zone e q v (rw same late)

-- A table from 1 to 4 is busy with a booking that ends after `now`, and an update of a booking succeeds
-- and gives it a check-in that is still to come. Then the table stays as it was, also after a tick of the
-- scheduler at `now`, with a database that answers, even where the booking of the table is the one that
-- was moved.
pub moved_booking_keeps_table :
    (zone : ℕ) (e : Circumstances) (id : String) (d : UpdateInput) (v : Venue) (r : Row)
    (s : Scheduler) (reads : ℕ → Reads) (now i : ℕ) (b : LiveBooking)
    → (handle_update zone e id (some d) v).0 ≡ ok r
    → e.sync_now < r.check_in
    → 1 ≤ i
    → i ≤ 4
    → (v.tables.cell i).occupancy ≡ busy
    → (v.tables.cell i).current ≡ some b
    → now < b.check_out
    → ((j : ℕ) → (reads j).reads_current ≡ true)
    → s.venue ≡ (handle_update zone e id (some d) v).1
    → (reconcile now reads s).venue.tables.cell i ≡ v.tables.cell i
unfolding handle_update
moved_booking_keeps_table zone e id d v r s reads now i b done late least most is_busy shows before
      answers after =
    let m = fetch_row e id v &> λ q. check_update e id d v in
    let kept : s.venue.tables ≡ v.tables =
      ap (λ (x : Venue). x.tables) after ∙ then_write-tables zone e m r v done late in
    let same : s.venue.tables.cell i ≡ v.tables.cell i = ap (λ (x : Tables). x.cell i) kept in
    let t = s.venue.tables.cell i in
    let tick = table_ticked i least most _ _ ((reconcile-ticked now reads s answers).1 i) in
    tick
    ∙ tick_going now i s.venue.rows t t.occupancy t.current b
        (ap (λ (x : TableCell). x.occupancy) same ∙ is_busy)
        (ap (λ (x : TableCell). x.current) same ∙ shows) (ground arith)
    ∙ same
