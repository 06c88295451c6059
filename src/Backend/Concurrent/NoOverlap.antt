-- ===== src/Backend/Concurrent/NoOverlap.antt =====
-- No table is booked twice for the same time, whatever requests come at the same time.
use gbc_smart_management.Base.{
  ℕ, zero, suc, ◌≤◌, ◌<◌, true, false, ◌≡◌, ◌⊎◌, inl, inr, refl, sym, ap, subst, arith, List, [],
  ◌∷◌, some, String, str_eq, All, All-erase_idx, All-get_elem?, get_elem?, erase_idx,
}
use gbc_smart_management.Backend.Rows.{Row, is_live}
use gbc_smart_management.Backend.Bookings.{Venue, Circumstances, ok}
use gbc_smart_management.Backend.Concurrent.{
  Change, revises, cancels, Waiting, Held, Crowd, check_change, write_of, row_of_write, IsNew,
  CrowdStep, begins, gives_up, locks_create, locks_change, writes, elsewhere, CrowdRun, still,
  then_step,
}
use gbc_smart_management.Backend.Concurrent.Rows.{AllApart, FitsWith, conflicts}
use gbc_smart_management.Backend.Concurrent.Checks.{Known, fetched-Known}
use gbc_smart_management.Backend.Concurrent.Passed.{
  check_create-IsFree, check_update-IsReplacement, check_cancel-IsReplacement,
}
use gbc_smart_management.Backend.Concurrent.Locks.{
  IsOther, AllLocked, is_free-IsOther, erase_idx-AllLocked, erase_idx-IsOther,
}
use gbc_smart_management.Backend.Concurrent.Writing.{
  WriteFits, rows_after, written-rows, rows_after-AllApart, rows_after-Known, rows_after-WriteFits,
}

abbrev pub WaitsRightly : List Row → Waiting → Type 0
WaitsRightly rows w = Known w.id w.table rows

abbrev pub HoldsRightly : List Row → Held → Type 0
HoldsRightly rows h = WriteFits h.table rows h.write

-- The rows are apart, a request that waits knows its table, one with a lock may write its row, and the
-- locks are of different tables.
pub record IsOrderly (s : Crowd) : Type 0 where
  pub apart : AllApart s.venue.rows
  pub known : All (WaitsRightly s.venue.rows) s.waiting
  pub fits : All (HoldsRightly s.venue.rows) s.held
  pub locks : AllLocked s.held

change-WriteFits :
    (c : Change) (e : Circumstances) (w : Waiting) (s : Venue) (r : Row)
    → AllApart s.rows
    → Known w.id w.table s.rows
    → check_change e (record w { change = c }) s ≡ ok r
    → WriteFits w.table s.rows (write_of c r)
unfolding check_change write_of
change-WriteFits (revises d) e w s r apart k h =
    check_update-IsReplacement w.id w.table s apart k e d r h
change-WriteFits cancels e w s r apart k h = check_cancel-IsReplacement w.id w.table s apart k e r h

-- Everything that holds of the rows is kept by a writing.
module _ (zone : ℕ) (e : Circumstances) (id : String) (s : Crowd) (n : ℕ) (h : Held)
    (o : IsOrderly s) (here : get_elem? s.held n ≡ some h) (new : IsNew id s) where
  own_fits : WriteFits h.table s.venue.rows h.write
  own_fits = All-get_elem? _ s.held n h o.fits here

  others_fit :
      (held : List Held)
      → All (IsOther h.table) held
      → All (λ (g : Held). str_eq id (row_of_write g.write).id ≡ false) held
      → All (HoldsRightly s.venue.rows) held
      → All (HoldsRightly (rows_after id h.write s.venue.rows)) held
  others_fit [] other fresh fits = tt
  others_fit (g ∷ held) other fresh fits = (
    rows_after-WriteFits id h.table h.write s.venue.rows own_fits g.table other.0 g.write fresh.0
        fits.0,
    others_fit held other.1 fresh.1 fits.1,
  )

  waiting_know :
      (waiting : List Waiting)
      → All (λ (w : Waiting). str_eq id w.id ≡ false) waiting
      → All (WaitsRightly s.venue.rows) waiting
      → All (WaitsRightly (rows_after id h.write s.venue.rows)) waiting
  waiting_know [] fresh known = tt
  waiting_know (w ∷ waiting) fresh known = (
    rows_after-Known id h.table h.write s.venue.rows w.id w.table own_fits fresh.0 known.0,
    waiting_know waiting fresh.1 known.1,
  )

  writes-IsOrderly :
      (venue : Venue)
      → (venue.rows ≡ s.venue.rows) ⊎ (venue.rows ≡ rows_after id h.write s.venue.rows)
      → IsOrderly (record s { venue = venue; held = erase_idx s.held n })
  writes-IsOrderly venue (inl same) = record {
    apart = rw same o.apart;
    known = rw same o.known;
    fits = rw same (All-erase_idx _ s.held n o.fits);
    locks = erase_idx-AllLocked s.held n o.locks;
  }
  writes-IsOrderly venue (inr changed) = record {
    apart =
        rw changed
          (rows_after-AllApart id h.table h.write s.venue.rows new.of_rows own_fits o.apart);
    known = rw changed (waiting_know s.waiting new.of_waiting o.known);
    fits = rw changed (
        others_fit (erase_idx s.held n) (erase_idx-IsOther s.held n h o.locks here)
          (All-erase_idx _ s.held n new.of_held) (All-erase_idx _ s.held n o.fits));
    locks = erase_idx-AllLocked s.held n o.locks;
  }

pub CrowdStep-IsOrderly : {zone : ℕ} {s t : Crowd} → CrowdStep zone s t → IsOrderly s → IsOrderly t
CrowdStep-IsOrderly {s} (begins e id c b read) o = record {
  apart = o.apart;
  known = (fetched-Known e id s.venue b o.apart read, o.known);
  fits = o.fits;
  locks = o.locks;
}
CrowdStep-IsOrderly {s} (gives_up n) o = record {
  apart = o.apart;
  known = All-erase_idx _ s.waiting n o.known;
  fits = o.fits;
  locks = o.locks;
}
CrowdStep-IsOrderly {zone} {s} (locks_create e d created_by role r free checked) o = record {
  apart = o.apart;
  known = o.known;
  fits = (check_create-IsFree zone e d created_by role s.venue r checked, o.fits);
  locks = (is_free-IsOther d.table_id s.held free, o.locks);
}
CrowdStep-IsOrderly {s} (locks_change n w e r here free checked) o = record {
  apart = o.apart;
  known = All-erase_idx _ s.waiting n o.known;
  fits = (
    change-WriteFits w.change e w s.venue r o.apart (All-get_elem? _ s.waiting n w o.known here)
        checked,
    o.fits,
  );
  locks = (is_free-IsOther w.table s.held free, o.locks);
}
CrowdStep-IsOrderly {zone} {s} (writes n h e id here new) o =
    writes-IsOrderly zone e id s n h o here new _ (written-rows zone e id h.write s.venue)
CrowdStep-IsOrderly (elsewhere config tables timelines) o = record {
  apart = o.apart;
  known = o.known;
  fits = o.fits;
  locks = o.locks;
}

pub CrowdRun-IsOrderly : {zone : ℕ} {s t : Crowd} → IsOrderly s → CrowdRun zone s t → IsOrderly t
CrowdRun-IsOrderly o still = o
CrowdRun-IsOrderly o (then_step r step) = CrowdStep-IsOrderly step (CrowdRun-IsOrderly o r)

-- The row is not cancelled and covers the moment.
abbrev pub Covers : ℕ → Row → Type 0
Covers moment r = (is_live r.status ≡ true) × (r.check_in ≤ moment) × (moment < r.check_out)

covering_conflict :
    (moment : ℕ) (r q : Row)
    → Covers moment r
    → Covers moment q
    → r.table_id ≡ q.table_id
    → conflicts r q ≡ true
unfolding conflicts
covering_conflict moment r q h k e = ground arith

one_of_two :
    (moment : ℕ) (r q : Row)
    → Covers moment r
    → Covers moment q
    → r.table_id ≡ q.table_id
    → ¬ (FitsWith r q)
one_of_two moment r q h k e f = cc (covering_conflict moment r q h k e, f.apart)

one_row :
    (moment : ℕ) (rows : List Row) (i j : ℕ) (r q : Row)
    → AllApart rows
    → get_elem? rows i ≡ some r
    → get_elem? rows j ≡ some q
    → Covers moment r
    → Covers moment q
    → r.table_id ≡ q.table_id
    → i ≡ j
unfolding get_elem?
one_row moment [] i j r q apart at_i at_j h k e = cc
one_row moment (p ∷ rows) zero zero r q apart at_i at_j h k e = refl
one_row moment (p ∷ rows) zero (suc j) r q apart at_i at_j h k e =
    let first : p ≡ r = cc at_i in
    absurd (
      one_of_two moment r q h k e
        (subst (λ x. FitsWith x q) first (All-get_elem? (FitsWith p) rows j q apart.0 at_j)))
one_row moment (p ∷ rows) (suc i) zero r q apart at_i at_j h k e =
    let first : p ≡ q = cc at_j in
    absurd (
      one_of_two moment q r k h (sym e)
        (subst (λ x. FitsWith x r) first (All-get_elem? (FitsWith p) rows i r apart.0 at_i)))
one_row moment (p ∷ rows) (suc i) (suc j) r q apart at_i at_j h k e =
    ap suc (one_row moment rows i j r q apart.1 at_i at_j h k e)

-- From rows that share no time, with no request under way: whatever creations, updates and
-- cancellations are asked for at the same time, and in whatever order they read, wait for the lock of
-- their table, check and write, with a database that may fail at each of its calls and gives new ids: at no
-- moment do two bookings that are not cancelled hold the same table.
pub no_double_booking :
    {zone : ℕ} (s t : Crowd) (moment i j : ℕ) (r q : Row)
    → AllApart s.venue.rows
    → s.waiting ≡ []
    → s.held ≡ []
    → CrowdRun zone s t
    → get_elem? t.venue.rows i ≡ some r
    → get_elem? t.venue.rows j ≡ some q
    → Covers moment r
    → Covers moment q
    → r.table_id ≡ q.table_id
    → i ≡ j
no_double_booking s t moment i j r q apart quiet free run at_i at_j h k e =
    let start : IsOrderly s = record {
      apart = apart;
      known = rw quiet tt;
      fits = rw free tt;
      locks = rw free tt;
    } in
    one_row moment t.venue.rows i j r q (CrowdRun-IsOrderly start run).apart at_i at_j h k e
