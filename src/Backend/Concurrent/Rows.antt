-- ===== src/Backend/Concurrent/Rows.antt =====
-- Rows that do not meet.
use gbc_smart_management.Base.{
  ltb, ◌==◌, Bool, true, false, not, ◌&&◌, ◌≡◌, ◌∙◌, arith, List, [], ◌∷◌, String, str_eq, eq_iff,
  All, All-append, Bool-cases, inl, inr,
}
use gbc_smart_management.Backend.Rows.{Row, is_live, same_id, insert_row, save_row}

-- Two rows that are not cancelled, of one table, share some time.
unfoldable pub conflicts : Row → Row → Bool
conflicts r q =
    r.table_id == q.table_id
    && is_live r.status
    && is_live q.status
    && ltb r.check_in q.check_out
    && ltb q.check_in r.check_out

-- The row and another one have ids of their own and share no time.
pub record FitsWith (r q : Row) : Type 0 where
  pub other : str_eq r.id q.id ≡ false
  pub apart : conflicts r q ≡ false

-- The rows share no time with one another.
abbrev pub AllApart : List Row → Type 0
AllApart [] = Unit
AllApart (r ∷ rows) = All (FitsWith r) rows × AllApart rows

pub str_eq_sym : (a b : String) → str_eq a b ≡ str_eq b a
str_eq_sym a b = ground (arith, eq_iff a b, eq_iff b a)

conflicts_sym : (r q : Row) → conflicts r q ≡ conflicts q r
unfolding conflicts
conflicts_sym r q = ground arith

pub FitsWith-sym : (r q : Row) → FitsWith r q → FitsWith q r
FitsWith-sym r q f = record {
  other = str_eq_sym q.id r.id ∙ f.other;
  apart = conflicts_sym q r ∙ f.apart;
}

pub insert_row-AllApart :
    (r : Row) (rows : List Row)
    → All (FitsWith r) rows
    → AllApart rows
    → AllApart (insert_row r rows)
unfolding insert_row
insert_row-AllApart r [] fits apart = (tt, tt)
insert_row-AllApart r (q ∷ rows) fits apart = (
  All-append (FitsWith q) rows (r ∷ []) apart.0 (FitsWith-sym r q fits.0, tt),
  insert_row-AllApart r rows fits.1 apart.1,
)

pub All-save_row {ℓ} :
    (P : Row → Type ℓ) (r : Row) (rows : List Row) → P r → All P rows → All P (save_row r rows)
unfolding save_row
All-save_row P r [] p h = tt
All-save_row P r (q ∷ rows) p h = ground (arith, All-save_row P r rows p h.1)

-- Every row but those with the id of `r` shares no time with it.
abbrev pub FitsOthers : Row → Row → Type 0
FitsOthers r q = (not (same_id r.id q) && conflicts r q) ≡ false

module _ (r q : Row) (here : same_id r.id q ≡ true) where
  replaced-FitsWith : (p : Row) → FitsWith q p → FitsOthers r p → FitsWith r p
  unfolding same_id
  replaced-FitsWith p f h =
      let new : str_eq r.id p.id ≡ false = rw (← (eq_iff q.id r.id).0 here) f.other in
      record { other = new; apart = rw (str_eq_sym p.id r.id ∙ new) at h }

  replaced-All :
      (rows : List Row) → All (FitsWith q) rows → All (FitsOthers r) rows → All (FitsWith r) rows
  replaced-All [] f h = tt
  replaced-All (p ∷ rows) f h = (replaced-FitsWith p f.0 h.0, replaced-All rows f.1 h.1)

kept-FitsWith : (r q : Row) → same_id r.id q ≡ false → FitsOthers r q → FitsWith q r
unfolding same_id
kept-FitsWith r q on h = record { other = on; apart = conflicts_sym q r ∙ (rw on at h) }

pub save_row-AllApart :
    (r : Row) (rows : List Row)
    → All (FitsOthers r) rows
    → AllApart rows
    → AllApart (save_row r rows)
unfolding save_row
save_row-AllApart r [] fits apart = tt
save_row-AllApart r (q ∷ rows) fits apart = elim (Bool-cases (same_id r.id q)) [
  | inl here ↦ rw here (replaced-All r q here rows apart.0 fits.1, apart.1)
  | inr on ↦ rw on (
    All-save_row (FitsWith q) r rows (kept-FitsWith r q on fits.0) apart.0,
    save_row-AllApart r rows fits.1 apart.1,
  )
]
