-- ===== src/Backend/Concurrent/Writing.antt =====
-- What a writing does to the rows, and to what the other requests have found out.
use gbc_smart_management.Base.{
  ℕ, ◌==◌, false, ◌≡◌, ◌∙◌, ◌⊎◌, inl, inr, arith, List, [], ◌∷◌, String, str_eq, eq_iff, All,
  All-append, Bool-cases,
}
use gbc_smart_management.Backend.Rows.{Row, same_id, insert_row, save_row}
use gbc_smart_management.Backend.Bookings.{
  Venue, Circumstances, emit_timeline, write_create, write_update, write_cancel,
}
use gbc_smart_management.Backend.Concurrent.{
  Write, inserts, revision, cancellation, written, row_of_write,
}
use gbc_smart_management.Backend.Concurrent.Rows.{
  str_eq_sym, conflicts, FitsWith, AllApart, FitsOthers, All-save_row, insert_row-AllApart,
  save_row-AllApart,
}
use gbc_smart_management.Backend.Concurrent.Checks.{Known, is_misplaced, misplaced_no}
use gbc_smart_management.Backend.Concurrent.Passed.{IsFree, IsReplacement}

-- The rows after a writing that succeeds.
unfoldable pub rows_after : String → Write → List Row → List Row
rows_after id (inserts r) rows = insert_row (record r { id = id }) rows
rows_after id (revision r) rows = save_row r rows
rows_after id (cancellation r) rows = save_row r rows

module _ (zone : ℕ) (e : Circumstances) where
  emit_timeline-rows : (s : Venue) → (emit_timeline zone e s).rows ≡ s.rows
  unfolding emit_timeline
  emit_timeline-rows s = ground arith

  pub written-rows :
      (id : String) (w : Write) (s : Venue)
      → ((written zone e id w s).rows ≡ s.rows)
        ⊎ ((written zone e id w s).rows ≡ rows_after id w s.rows)
  unfolding written write_create write_update write_cancel rows_after emit_timeline
  written-rows id (inserts r) s = ground arith
  written-rows id (revision r) s = ground arith
  written-rows id (cancellation r) s = ground arith

-- An insertion keeps what holds of the new row, and a replacement what follows for it from the row
-- before.
All-insert_row {ℓ} :
    (P : Row → Type ℓ) (r : Row) (rows : List Row) → P r → All P rows → All P (insert_row r rows)
unfolding insert_row
All-insert_row P r rows p h = All-append P rows (r ∷ []) h (p, tt)

module _ (r : Row) (table : ℕ) (own : r.table_id ≡ table) where
  replaced-Known :
      (id : String) (t : ℕ) (rows : List Row)
      → Known r.id table rows
      → Known id t rows
      → Known id t (save_row r rows)
  unfolding save_row is_misplaced same_id
  replaced-Known id t [] k h = tt
  replaced-Known id t (q ∷ rows) k h = elim (Bool-cases (same_id r.id q)) [
    | inl here ↦
        rw here (ground (arith, eq_iff q.id r.id, eq_iff q.id id, eq_iff r.id id, k.0, h.0), h.1)
    | inr on ↦ rw on (h.0, replaced-Known id t rows k.1 h.1)
  ]

  elsewhere-apart :
      (p : Row) (t : ℕ) → p.table_id ≡ t → (t == table) ≡ false → conflicts p r ≡ false
  unfolding conflicts
  elsewhere-apart p t e other = ground arith

  elsewhere-FitsOthers : (p : Row) (t : ℕ) → p.table_id ≡ t → (t == table) ≡ false → FitsOthers p r
  elsewhere-FitsOthers p t e other = ground (arith, elsewhere-apart p t e other)

-- What a check has found out about the row that is to be written.
abbrev pub WriteFits : ℕ → List Row → Write → Type 0
WriteFits table rows (inserts r) = IsFree table rows r
WriteFits table rows (revision r) = IsReplacement table rows r
WriteFits table rows (cancellation r) = IsReplacement table rows r

new-FitsWith :
    (id : String) (r q : Row)
    → same_id id q ≡ false
    → conflicts r q ≡ false
    → FitsWith (record r { id = id }) q
unfolding same_id conflicts
new-FitsWith id r q new free = record { other = str_eq_sym id q.id ∙ new; apart = free }

new-All :
    (id : String) (r : Row) (rows : List Row)
    → All (λ q. same_id id q ≡ false) rows
    → All (λ q. conflicts r q ≡ false) rows
    → All (FitsWith (record r { id = id })) rows
new-All id r [] new free = tt
new-All id r (q ∷ rows) new free =
    (new-FitsWith id r q new.0 free.0, new-All id r rows new.1 free.1)

-- The rows stay apart.
pub rows_after-AllApart :
    (id : String) (table : ℕ) (w : Write) (rows : List Row)
    → All (λ q. same_id id q ≡ false) rows
    → WriteFits table rows w
    → AllApart rows
    → AllApart (rows_after id w rows)
unfolding rows_after
rows_after-AllApart id table (inserts r) rows new fits apart =
    insert_row-AllApart (record r { id = id }) rows (new-All id r rows new fits.free) apart
rows_after-AllApart id table (revision r) rows new fits apart =
    save_row-AllApart r rows fits.free apart
rows_after-AllApart id table (cancellation r) rows new fits apart =
    save_row-AllApart r rows fits.free apart

-- What is known of a request that waits stays so.
pub rows_after-Known :
    (id : String) (table : ℕ) (w : Write) (rows : List Row) (own : String) (t : ℕ)
    → WriteFits table rows w
    → str_eq id own ≡ false
    → Known own t rows
    → Known own t (rows_after id w rows)
unfolding rows_after
rows_after-Known id table (inserts r) rows own t fits new k =
    All-insert_row _ (record r { id = id }) rows
      (misplaced_no own t (record r { id = id }) (unfold same_id in new)) k
rows_after-Known id table (revision r) rows own t fits new k =
    replaced-Known r table fits.own_table own t rows fits.known k
rows_after-Known id table (cancellation r) rows own t fits new k =
    replaced-Known r table fits.own_table own t rows fits.known k

-- What a request with the lock of another table has found out stays so.
row_table : (id : String) (w : Write) → Row
row_table id (inserts r) = record r { id = id }
row_table id (revision r) = r
row_table id (cancellation r) = r

rows_after-All {ℓ} :
    (P : Row → Type ℓ) (id : String) (w : Write) (rows : List Row)
    → P (row_table id w)
    → All P rows
    → All P (rows_after id w rows)
unfolding rows_after row_table
rows_after-All P id (inserts r) rows p h = All-insert_row P (record r { id = id }) rows p h
rows_after-All P id (revision r) rows p h = All-save_row P r rows p h
rows_after-All P id (cancellation r) rows p h = All-save_row P r rows p h

row_table-own :
    (id : String) (table : ℕ) (w : Write) (rows : List Row)
    → WriteFits table rows w
    → (row_table id w).table_id ≡ table
unfolding row_table
row_table-own id table (inserts r) rows fits = fits.own_table
row_table-own id table (revision r) rows fits = fits.own_table
row_table-own id table (cancellation r) rows fits = fits.own_table

module _ (id : String) (table : ℕ) (w : Write) (rows : List Row) (fits : WriteFits table rows w)
    (t : ℕ) (other : (t == table) ≡ false) where
  kept-IsFree : (p : Row) → IsFree t rows p → IsFree t (rows_after id w rows) p
  kept-IsFree p f = record {
    own_table = f.own_table;
    free =
        rows_after-All _ id w rows
          (elsewhere-apart (row_table id w) table (row_table-own id table w rows fits) p t
            f.own_table other)
          f.free;
  }

  kept-IsReplacement :
      (p : Row)
      → str_eq id p.id ≡ false
      → IsReplacement t rows p
      → IsReplacement t (rows_after id w rows) p
  kept-IsReplacement p new f = record {
    own_table = f.own_table;
    known = rows_after-Known id table w rows p.id t fits new f.known;
    free =
        rows_after-All _ id w rows
          (elsewhere-FitsOthers (row_table id w) table (row_table-own id table w rows fits) p t
            f.own_table other)
          f.free;
  }

  pub rows_after-WriteFits :
      (v : Write)
      → str_eq id (row_of_write v).id ≡ false
      → WriteFits t rows v
      → WriteFits t (rows_after id w rows) v
  unfolding row_of_write
  rows_after-WriteFits (inserts p) new f = kept-IsFree p f
  rows_after-WriteFits (revision p) new f = kept-IsReplacement p new f
  rows_after-WriteFits (cancellation p) new f = kept-IsReplacement p new f
