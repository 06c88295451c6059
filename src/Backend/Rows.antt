-- ===== src/Backend/Rows.antt =====
-- backend/internal/domain/types.go and backend/internal/repository/booking_repo.go: the rows of the
-- bookings and the filters of the queries. The collection is the list of its documents, in the order
-- of their insertion.
use gbc_smart_management.Base.{
  ℕ, ltb, leb, ◌==◌, Bool, true, false, not, ◌&&◌, List, [], ◌∷◌, ◌++◌, Option, none, some, String,
  str_eq, Text, ℤ, if◌then◌else◌, filter_by, find_by, some_by,
}

pub data RowStatus : Type 0 where
  active cancelled : RowStatus

pub record Row : Type 0 where
  pub id : String
  pub table_id : ℕ
  pub booker_name : Text
  pub booker_mobile : Text
  pub check_in : ℕ
  pub check_out : ℕ
  pub duration_minutes : ℕ
  pub amount : ℤ
  pub is_paid : Bool
  pub status : RowStatus
  pub created_by : String
  pub created_at : ℕ

-- `"status": {"$ne": "CANCELLED"}`
unfoldable pub is_live : RowStatus → Bool
is_live active = true
is_live cancelled = false

unfoldable pub same_id : String → Row → Bool
same_id id r = str_eq r.id id

-- The filter of `HasOverlap`; no row is excluded where there is no id.
unfoldable pub is_excluded : Option String → Row → Bool
is_excluded none r = false
is_excluded (some id) r = same_id id r

unfoldable pub overlaps : ℕ → ℕ → ℕ → Option String → Row → Bool
overlaps table check_in check_out exclude r =
    r.table_id == table
    && is_live r.status
    && ltb r.check_in check_out
    && ltb check_in r.check_out
    && not (is_excluded exclude r)

unfoldable pub has_overlap : ℕ → ℕ → ℕ → Option String → List Row → Bool
has_overlap table check_in check_out exclude rows =
    some_by (overlaps table check_in check_out exclude) rows

-- `FindByID`
unfoldable pub find_by_id : String → List Row → Option Row
find_by_id id rows = find_by (same_id id) rows

-- `Create`, of a document with its new id.
unfoldable pub insert_row : Row → List Row → List Row
insert_row r rows = rows ++ r ∷ []

-- `Save`: the document with the id of the row is replaced.
unfoldable pub save_row : Row → List Row → List Row
save_row r [] = []
save_row r (q ∷ rows) = if same_id r.id q then r ∷ rows else q ∷ save_row r rows

-- `FindCurrentForTable`
unfoldable pub is_current : ℕ → ℕ → Row → Bool
is_current table now r =
    r.table_id == table && is_live r.status && leb r.check_in now && ltb now r.check_out

unfoldable pub find_current : ℕ → ℕ → List Row → Option Row
find_current table now rows = find_by (is_current table now) rows

-- `FindNextUpcoming`: the first one by its check-in.
unfoldable pub is_upcoming : ℕ → ℕ → Row → Bool
is_upcoming table after r = r.table_id == table && is_live r.status && ltb after r.check_in

unfoldable pub earlier_of : Row → Option Row → Option Row
earlier_of r none = some r
earlier_of r (some q) = if leb r.check_in q.check_in then some r else some q

unfoldable pub earliest : List Row → Option Row
earliest [] = none
earliest (r ∷ rows) = earlier_of r (earliest rows)

unfoldable pub find_next_upcoming : ℕ → ℕ → List Row → Option Row
find_next_upcoming table after rows = earliest (filter_by (is_upcoming table after) rows)

-- `FindTimeline`, sorted by the table and the check-in.
unfoldable pub is_in_window : ℕ → ℕ → Row → Bool
is_in_window start end r = is_live r.status && ltb r.check_in end && ltb start r.check_out

unfoldable pub comes_first : Row → Row → Bool
comes_first r q =
    if r.table_id == q.table_id then leb r.check_in q.check_in else ltb r.table_id q.table_id

unfoldable pub insert_sorted : Row → List Row → List Row
insert_sorted r [] = r ∷ []
insert_sorted r (q ∷ rows) = if comes_first r q then r ∷ q ∷ rows else q ∷ insert_sorted r rows

unfoldable pub sort_rows : List Row → List Row
sort_rows [] = []
sort_rows (r ∷ rows) = insert_sorted r (sort_rows rows)

unfoldable pub find_timeline : ℕ → ℕ → List Row → List Row
find_timeline start end rows = sort_rows (filter_by (is_in_window start end) rows)
