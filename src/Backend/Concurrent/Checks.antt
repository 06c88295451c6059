-- ===== src/Backend/Concurrent/Checks.antt =====
-- What a check that succeeds has found out.
use gbc_smart_management.Base.{
  ℕ, ◌==◌, Bool, true, false, not, ◌&&◌, ◌≡◌, refl, subst, arith, List, [], ◌∷◌, String, eq_iff,
  All, All-imp, find_by, find_by-test, All-find_by, some, Bool-cases, inl, inr,
}
use gbc_smart_management.Backend.Rows.{Row, same_id, find_by_id}
use gbc_smart_management.Backend.Bookings.{Venue, Circumstances, ok, fetch_row, live_row}
use gbc_smart_management.Backend.Concurrent.Rows.{FitsWith, AllApart, FitsOthers, FitsWith-sym}

-- No row with the id is of another table.
unfoldable pub is_misplaced : String → ℕ → Row → Bool
is_misplaced id table q = same_id id q && not (q.table_id == table)

abbrev pub Known : String → ℕ → List Row → Type 0
Known id table rows = All (λ q. is_misplaced id table q ≡ false) rows

pub misplaced_no :
    (id : String) (table : ℕ) (q : Row) → same_id id q ≡ false → is_misplaced id table q ≡ false
unfolding is_misplaced
misplaced_no id table q on = rw on refl

module _ (id : String) (r : Row) where
  pub found-id : (rows : List Row) → find_by_id id rows ≡ some r → r.id ≡ id
  unfolding find_by_id same_id
  found-id rows h = (eq_iff r.id id).0 (find_by-test (same_id id) rows r h)

  others-Known : (q : Row) → r.id ≡ id → FitsWith r q → is_misplaced id r.table_id q ≡ false
  unfolding is_misplaced same_id
  others-Known q e f = ground (arith, eq_iff q.id id, eq_iff r.id q.id, f.other)

  fits-FitsOthers : (q : Row) → FitsWith r q → FitsOthers r q
  fits-FitsOthers q f = ground (arith, f.apart)

  own-Known : r.id ≡ id → is_misplaced id r.table_id r ≡ false
  unfolding is_misplaced
  own-Known e = ground arith

  own-FitsOthers : FitsOthers r r
  unfolding same_id
  own-FitsOthers = ground (arith, eq_iff r.id r.id)

module _ (id : String) (r : Row) where
  found-first :
      (q : Row) (rows : List Row) → same_id id q ≡ true → find_by_id id (q ∷ rows) ≡ some r → q ≡ r
  unfolding find_by_id find_by
  found-first q rows here h = ground arith

  pub found-Known :
      (rows : List Row) → AllApart rows → find_by_id id rows ≡ some r → Known id r.table_id rows
  unfolding find_by_id find_by same_id
  found-Known [] apart h = tt
  found-Known (q ∷ rows) apart h = elim (Bool-cases (same_id id q)) [
    | inl here ↦
        subst (λ x. Known id x.table_id (q ∷ rows)) (found-first q rows here h)
          (
            own-Known id q ((eq_iff q.id id).0 here),
            All-imp (FitsWith q) _ (λ p f. others-Known id q p ((eq_iff q.id id).0 here) f) rows
                apart.0,
          )
    | inr on ↦ (misplaced_no id r.table_id q on, found-Known rows apart.1 (rw on at h))
  ]

  pub found-FitsOthers :
      (rows : List Row) → AllApart rows → find_by_id id rows ≡ some r → All (FitsOthers r) rows
  unfolding find_by_id find_by same_id
  found-FitsOthers [] apart h = tt
  found-FitsOthers (q ∷ rows) apart h = elim (Bool-cases (same_id id q)) [
    | inl here ↦
        subst (λ x. All (FitsOthers x) (q ∷ rows)) (found-first q rows here h)
          (
            own-FitsOthers id q,
            All-imp (FitsWith q) (FitsOthers q) (fits-FitsOthers id q) rows apart.0,
          )
    | inr on ↦ (
      fits-FitsOthers id r q
          (FitsWith-sym q r (All-find_by (same_id id) (FitsWith q) rows r apart.0 (rw on at h))),
      found-FitsOthers rows apart.1 (rw on at h),
    )
  ]

-- The row that a request reads before it has the lock.
pub fetched-Known :
    (e : Circumstances) (id : String) (s : Venue) (b : Row)
    → AllApart s.rows
    → fetch_row e id s ≡ ok b
    → Known id b.table_id s.rows
unfolding fetch_row live_row
fetched-Known e id s b apart h = found-Known id b s.rows apart (ground arith)
