-- ===== src/Backend/Concurrent.antt =====
-- The requests of BookingService at the same time: each works under the lock of its table
-- (`getTableMutex`), an update and a cancellation read the row before they have it, and the reading and
-- the writing of the database are steps of their own.
pub mod Rows
pub mod Checks
pub mod Passed
pub mod Locks
pub mod Writing
pub mod NoOverlap
use gbc_smart_management.Base.{
  ℕ, ◌==◌, Bool, true, false, not, ◌≡◌, List, ◌∷◌, Option, some, String, every, All, get_elem?,
  erase_idx, str_eq,
}
use gbc_smart_management.Backend.Rows.{Row, same_id}
use gbc_smart_management.Backend.Tables.{Tables, Channel}
use gbc_smart_management.Backend.Days.{VenueConfig}
use gbc_smart_management.Backend.Bookings.{
  Venue, CreateInput, UpdateInput, Circumstances, Answer, ok, check_create, write_create, fetch_row,
  check_update, write_update, check_cancel, write_cancel,
}

-- A request that has read its row and waits for the lock of the row's table.
pub data Change : Type 0 where
  revises : UpdateInput → Change
  cancels : Change

pub record Waiting : Type 0 where
  pub table : ℕ
  pub id : String
  pub change : Change

-- A request that has the lock, has made its checks, and is about to write.
pub data Write : Type 0 where
  inserts : Row → Write
  revision : Row → Write
  cancellation : Row → Write

pub record Held : Type 0 where
  pub table : ℕ
  pub write : Write

pub record Crowd : Type 0 where
  pub venue : Venue
  pub waiting : List Waiting
  pub held : List Held

-- The lock of the table is free.
unfoldable pub is_free : ℕ → List Held → Bool
is_free table held = every (λ h. not (h.table == table)) held

unfoldable pub check_change : Circumstances → Waiting → Venue → Answer Row
check_change e w s = elim w.change [
  | revises d ↦ check_update e w.id d s
  | cancels ↦ check_cancel e w.id s
]

unfoldable pub write_of : Change → Row → Write
write_of (revises d) r = revision r
write_of cancels r = cancellation r

unfoldable pub row_of_write : Write → Row
row_of_write (inserts r) = r
row_of_write (revision r) = r
row_of_write (cancellation r) = r

unfoldable pub written : ℕ → Circumstances → String → Write → Venue → Venue
written zone e id (inserts r) s = (write_create zone e id r s).1
written zone e id (revision r) s = (write_update zone e r s).1
written zone e id (cancellation r) s = (write_cancel zone e r s).1

-- A new id is not that of any row or request.
pub record IsNew (id : String) (s : Crowd) : Type 0 where
  pub of_rows : All (λ r. same_id id r ≡ false) s.venue.rows
  pub of_waiting : All (λ (w : Waiting). str_eq id w.id ≡ false) s.waiting
  pub of_held : All (λ (h : Held). str_eq id (row_of_write h.write).id ≡ false) s.held

-- A step of one request, or a change of the venue that leaves the rows alone. A check that fails and a
-- writing that fails give the lock back with nothing written.
pub data CrowdStep (zone : ℕ) (s : Crowd) : Crowd → Type 0 where
  begins :
      (e : Circumstances) (id : String) (c : Change) (b : Row)
      → fetch_row e id s.venue ≡ ok b
      → CrowdStep zone s
          (record s { waiting = record { table = b.table_id; id = id; change = c } ∷ s.waiting })
  gives_up : (n : ℕ) → CrowdStep zone s (record s { waiting = erase_idx s.waiting n })
  locks_create :
      (e : Circumstances) (d : CreateInput) (created_by role : String) (r : Row)
      → is_free d.table_id s.held ≡ true
      → check_create zone e d created_by role s.venue ≡ ok r
      → CrowdStep zone s
          (record s { held = record { table = d.table_id; write = inserts r } ∷ s.held })
  locks_change :
      (n : ℕ) (w : Waiting) (e : Circumstances) (r : Row)
      → get_elem? s.waiting n ≡ some w
      → is_free w.table s.held ≡ true
      → check_change e w s.venue ≡ ok r
      → CrowdStep zone s (record s {
        waiting = erase_idx s.waiting n;
        held = record { table = w.table; write = write_of w.change r } ∷ s.held;
      })
  writes :
      (n : ℕ) (h : Held) (e : Circumstances) (id : String)
      → get_elem? s.held n ≡ some h
      → IsNew id s
      → CrowdStep zone s
          (record s { venue = written zone e id h.write s.venue; held = erase_idx s.held n })
  elsewhere :
      (config : Option VenueConfig) (tables : Tables) (timelines : Channel (List Row))
      → CrowdStep zone s (record s {
        venue = record (s.venue) { config = config; tables = tables; timelines = timelines };
      })

pub data CrowdRun (zone : ℕ) (s : Crowd) : Crowd → Type 0 where
  still : CrowdRun zone s s
  then_step : {t u : Crowd} → CrowdRun zone s t → CrowdStep zone t u → CrowdRun zone s u
