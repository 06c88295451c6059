-- ===== src/Backend/Concurrent/Locks.antt =====
-- The locks that are held are of different tables.
use gbc_smart_management.Base.{
  ℕ, zero, suc, ◌==◌, true, false, not, ◌≡◌, arith, List, [], ◌∷◌, some, All, All-imp,
  All-erase_idx, All-get_elem?, every-All, get_elem?, erase_idx, subst,
}
use gbc_smart_management.Backend.Concurrent.{Held, is_free}

abbrev pub IsOther : ℕ → Held → Type 0
IsOther table g = (g.table == table) ≡ false

abbrev pub AllLocked : List Held → Type 0
AllLocked [] = Unit
AllLocked (h ∷ held) = All (IsOther h.table) held × AllLocked held

pub is_free-IsOther :
    (table : ℕ) (held : List Held) → is_free table held ≡ true → All (IsOther table) held
unfolding is_free
is_free-IsOther table held h =
    All-imp _ _ (λ g e. ground (arith, e)) held (every-All (λ g. not (g.table == table)) held h)

pub erase_idx-AllLocked : (held : List Held) (n : ℕ) → AllLocked held → AllLocked (erase_idx held n)
unfolding erase_idx
erase_idx-AllLocked [] n h = tt
erase_idx-AllLocked (g ∷ held) zero h = h.1
erase_idx-AllLocked (g ∷ held) (suc n) h =
    (All-erase_idx (IsOther g.table) held n h.0, erase_idx-AllLocked held n h.1)

IsOther-sym : (table : ℕ) (g : Held) → (table == g.table) ≡ false → IsOther table g
IsOther-sym table g h = ground arith

pub erase_idx-IsOther :
    (held : List Held) (n : ℕ) (h : Held)
    → AllLocked held
    → get_elem? held n ≡ some h
    → All (IsOther h.table) (erase_idx held n)
unfolding erase_idx get_elem?
erase_idx-IsOther [] n h locks e = tt
erase_idx-IsOther (g ∷ held) zero h locks e =
    let same : g ≡ h = cc e in subst (λ (x : Held). All (IsOther x.table) held) same locks.0
erase_idx-IsOther (g ∷ held) (suc n) h locks e = (
  IsOther-sym h.table g (All-get_elem? (IsOther g.table) held n h locks.0 e),
  erase_idx-IsOther held n h locks.1 e,
)
