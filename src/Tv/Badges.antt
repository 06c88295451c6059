-- ===== src/Tv/Badges.antt =====
-- The badge of a busy card, and the sounds.
use gbc_smart_management.Base.{
  leb, ◌==◌, ◌⊎◌, inl, inr, str_eq, if◌then◌else◌, ℕ, ◌+◌, ◌≡◌, ◌↔◌, refl, arith, int_laws, true,
  not, pos, negsuc, ℤ, ltb_ℤ, ◌-ℤ◌, floor_div,
}
use gbc_smart_management.Store.{TableState}
use gbc_smart_management.Tv.{
  Card, card_of, ending_soon, final_minutes, ended, is_due, within, end_of, Badge, in_play,
  ends_soon, final_mins, time_up, badge_of,
}

-- The badge by the time that remains.
abbrev pub badge_at : ℤ → Badge
badge_at (negsuc n) = time_up
badge_at (pos n) =
    if n == 0
    then time_up
    else if leb n 180000
    then final_mins
    else if leb n 600000
    then ends_soon
    else in_play

badge_of-badge_at : (c : Card) → badge_of c ≡ badge_at c.remaining_ms
unfolding badge_of
badge_of-badge_at c = elim (sign-cases c.remaining_ms) [
  | inl e ↦ rw e.1 (ground arith)
  | inr e ↦ rw e.1 (ground arith)
]
  where
    sign-cases : (n : ℤ) → ((k : ℕ) × (n ≡ pos k)) ⊎ ((k : ℕ) × (n ≡ negsuc k))
    sign-cases (pos k) = inl (k, refl)
    sign-cases (negsuc k) = inr (k, refl)

ending_lem :
    (n : ℤ)
    → (within (pos 180) (floor_div n 1000) (pos 600) ≡ true) ↔ (badge_at (n -ℤ pos 999) ≡ ends_soon)
unfolding ◌-ℤ◌ floor_div
ending_lem (pos k) = ground arith
ending_lem (negsuc k) = ground arith

final_lem :
    (n : ℤ)
    → (within (pos 0) (floor_div n 1000) (pos 180) ≡ true) ↔ (badge_at (n -ℤ pos 999) ≡ final_mins)
unfolding ◌-ℤ◌ floor_div
final_lem (pos k) = ground arith
final_lem (negsuc k) = ground arith

ended_lem :
    (n : ℤ) → (not (ltb_ℤ (pos 0) (floor_div n 1000)) ≡ true) ↔ (badge_at (n -ℤ pos 999) ≡ time_up)
unfolding ◌-ℤ◌ floor_div
ended_lem (pos k) = ground arith
ended_lem (negsuc k) = ground arith

later_lem : (a now : ℕ) → pos a -ℤ pos (now + 999) ≡ (pos a -ℤ pos now) -ℤ pos 999
later_lem a now = omega int_laws

-- At a busy table, each of the three warning sounds is due exactly when the badge of the same name is
-- the one of 999 milliseconds later: the sound comes with the last whole second before the badge.
pub sounds_lead_badges :
    (table : TableState) (now : ℕ)
    → str_eq table.status "BUSY" ≡ true
    → let later = badge_of (card_of table (now + 999)) in
      ((is_due ending_soon (card_of table now) ≡ true) ↔ (later ≡ ends_soon))
      × ((is_due final_minutes (card_of table now) ≡ true) ↔ (later ≡ final_mins))
      × ((is_due ended (card_of table now) ≡ true) ↔ (later ≡ time_up))
unfolding card_of is_due
sounds_lead_badges table now h = rw (badge_of-badge_at (card_of table (now + 999))) (
    simp (h, later_lem (end_of table.current_booking) now) (ending_lem _, final_lem _, ended_lem _))
