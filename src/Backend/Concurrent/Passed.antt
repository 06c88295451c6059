-- ===== src/Backend/Concurrent/Passed.antt =====
-- The row that a check hands on: it is of the table that is locked, and meets no other row.
use gbc_smart_management.Base.{
  ℕ, ltb, Bool, false, ◌||◌, ◌≡◌, refl, subst, arith, List, String, eq_iff, All, All-imp,
  some_by-All, All-find_by, none, some, Option, Bool-cases, inl, inr, if◌then◌else◌,
}
use gbc_smart_management.Backend.Rows.{
  Row, cancelled, is_live, same_id, overlaps, has_overlap, is_excluded, find_by_id,
}
use gbc_smart_management.Backend.Bookings.{
  Venue, CreateInput, UpdateInput, Circumstances, Answer, ok, failed, ◌&>◌, check_create,
  fetch_row_again, live_row, check_update, check_cancel, move_row, rewritten, overlap_check,
  is_given, parse_times, time_or, is_past_day,
}
use gbc_smart_management.Backend.Concurrent.Rows.{conflicts, AllApart, FitsOthers}
use gbc_smart_management.Backend.Concurrent.Checks.{Known, is_misplaced, found-id, found-FitsOthers}

-- A new row, and a row that replaces the one with its id.
pub record IsFree (table : ℕ) (rows : List Row) (r : Row) : Type 0 where
  pub own_table : r.table_id ≡ table
  pub free : All (λ q. conflicts r q ≡ false) rows

pub record IsReplacement (table : ℕ) (rows : List Row) (r : Row) : Type 0 where
  pub own_table : r.table_id ≡ table
  pub known : Known r.id table rows
  pub free : All (FitsOthers r) rows

&>-eq-ok :
    {A B : Type 0} (m : Answer A) (f : A → Answer B) {b : B}
    → (m &> f) ≡ ok b
    → (a : A) × (m ≡ ok a) × (f a ≡ ok b)
&>-eq-ok (ok a) f h = (a, refl, h)
&>-eq-ok (failed n) f h = cc

overlap_check-ok :
    (e : Circumstances) (taken : Bool) (q r : Row)
    → overlap_check e taken q ≡ ok r
    → (taken ≡ false) × (q ≡ r)
unfolding overlap_check
overlap_check-ok e taken q r h = ground arith

free_of_overlap :
    (r : Row) (rows : List Row)
    → has_overlap r.table_id r.check_in r.check_out none rows ≡ false
    → All (λ q. conflicts r q ≡ false) rows
unfolding has_overlap overlaps is_excluded conflicts
free_of_overlap r rows h =
    All-imp _ _ (λ q f. ground (arith, f)) rows
      (some_by-All (overlaps r.table_id r.check_in r.check_out none) rows h)

free_of_other :
    (r : Row) (rows : List Row)
    → has_overlap r.table_id r.check_in r.check_out (some r.id) rows ≡ false
    → All (FitsOthers r) rows
unfolding has_overlap overlaps is_excluded conflicts
free_of_other r rows h =
    All-imp _ _ (λ q f. ground (arith, f)) rows
      (some_by-All (overlaps r.table_id r.check_in r.check_out (some r.id)) rows h)

pub check_create-IsFree :
    (zone : ℕ) (e : Circumstances) (d : CreateInput) (created_by role : String) (s : Venue)
    (r : Row)
    → check_create zone e d created_by role s ≡ ok r
    → IsFree d.table_id s.rows r
unfolding check_create
check_create-IsFree zone e d created_by role s r h =
    let (times, parsed, rest) = &>-eq-ok (parse_times d.check_in d.check_out) _ h in
    elim (Bool-cases (is_past_day zone e role times.0 s)) [
      | inl past ↦ let impossible : ⊥ = cc (rw past at rest) in absurd impossible
      | inr today ↦
          let checked = overlap_check-ok e _ _ r (rw today at rest) in
          subst (IsFree d.table_id s.rows) checked.1
            (record { own_table = refl; free = free_of_overlap _ s.rows checked.0 })
    ]

live_row-ok : (o : Option Row) (r : Row) → live_row o ≡ ok r → o ≡ some r
unfolding live_row
live_row-ok none r h = cc
live_row-ok (some q) r h = ground arith

found_again :
    (e : Circumstances) (id : String) (s : Venue) (r : Row)
    → fetch_row_again e id s ≡ ok r
    → find_by_id id s.rows ≡ some r
unfolding fetch_row_again
found_again e id s r h = elim (Bool-cases e.reads_row_again) [
  | inl reads ↦ live_row-ok _ r (rw reads at h)
  | inr breaks ↦ cc (rw breaks at h)
]

ended_fits : (r q : Row) → FitsOthers (record r { status = cancelled }) q
unfolding conflicts is_live
ended_fits r q = ground arith

-- The row as it is read under the lock.
module _ (id : String) (table : ℕ) (s : Venue) (apart : AllApart s.rows)
    (known : Known id table s.rows) where
  own_table_of : (r : Row) → r.id ≡ id → is_misplaced id table r ≡ false → r.table_id ≡ table
  unfolding is_misplaced same_id
  own_table_of r e h = ground (arith, eq_iff r.id id)

  found-table : (r : Row) → find_by_id id s.rows ≡ some r → r.table_id ≡ table
  unfolding find_by_id
  found-table r h =
      own_table_of r (found-id id r s.rows h) (All-find_by (same_id id) _ s.rows r known h)

  found-IsReplacement : (r : Row) → find_by_id id s.rows ≡ some r → IsReplacement table s.rows r
  found-IsReplacement r h = record {
    own_table = found-table r h;
    known = rw (found-id id r s.rows h) known;
    free = found-FitsOthers id r s.rows apart h;
  }

  rewritten-IsReplacement :
      (d : UpdateInput) (r : Row)
      → IsReplacement table s.rows r
      → IsReplacement table s.rows (rewritten d r)
  unfolding rewritten conflicts
  rewritten-IsReplacement d r p = record { own_table = p.own_table; known = p.known; free = p.free }

  move_row-IsReplacement :
      (e : Circumstances) (d : UpdateInput) (fresh r : Row)
      → find_by_id id s.rows ≡ some fresh
      → move_row e id d fresh s ≡ ok r
      → IsReplacement table s.rows r
  unfolding move_row
  move_row-IsReplacement e d fresh r found h =
      let (start, e1, h1) = &>-eq-ok (time_or fresh.check_in d.check_in) _ h in
      let (end, e2, h2) = &>-eq-ok (time_or fresh.check_out d.check_out) _ h1 in
      elim (Bool-cases (ltb start end)) [
        | inl forward ↦
            let checked = overlap_check-ok e _ _ r (rw forward at h2) in
            let same = found-id id fresh s.rows found in
            subst (IsReplacement table s.rows) checked.1 (record {
              own_table = found-table fresh found;
              known = rw same known;
              free = free_of_other _ s.rows (rw same (checked.0));
            })
        | inr backward ↦ let impossible : ⊥ = cc (rw backward at h2) in absurd impossible
      ]

  pub check_update-IsReplacement :
      (e : Circumstances) (d : UpdateInput) (r : Row)
      → check_update e id d s ≡ ok r
      → IsReplacement table s.rows r
  unfolding check_update
  check_update-IsReplacement e d r h =
      let (fresh, e1, h1) = &>-eq-ok (fetch_row_again e id s) _ h in
      let found = found_again e id s fresh e1 in
      let (moved, e2, h2) =
        &>-eq-ok
          (if is_given d.check_out || is_given d.check_in
            then move_row e id d fresh s
            else ok fresh)
          _ h1 in
      let same : rewritten d moved ≡ r = cc h2 in
      subst (IsReplacement table s.rows) same (
        rewritten-IsReplacement d moved
          (elim (Bool-cases (is_given d.check_out || is_given d.check_in)) [
            | inl given ↦ move_row-IsReplacement e d fresh moved found (rw given at e2)
            | inr left ↦
                let kept : fresh ≡ moved = cc (rw left at e2) in
                subst (IsReplacement table s.rows) kept (found-IsReplacement fresh found)
          ]))

  pub check_cancel-IsReplacement :
      (e : Circumstances) (r : Row) → check_cancel e id s ≡ ok r → IsReplacement table s.rows r
  unfolding check_cancel
  check_cancel-IsReplacement e r h =
      let (fresh, e1, h1) = &>-eq-ok (fetch_row_again e id s) _ h in
      let found = found_again e id s fresh e1 in
      let same : record fresh { status = cancelled } ≡ r = cc h1 in
      subst (IsReplacement table s.rows) same (record {
        own_table = found-table fresh found;
        known = (found-IsReplacement fresh found).known;
        free = All-imp _ _ (λ q f. ended_fits fresh q) s.rows known;
      })
