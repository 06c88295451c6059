-- ===== src/Illumination/Pending.antt =====
-- Which cards wait for the server.
use gbc_smart_management.Base.{
  ℕ, suc, ◌+◌, ==_iff, true, false, not, if◌then◌else◌, List, [], ◌∷◌, ◌++◌, map, Option, none,
  some, String, ◌≡◌, inl, inr, refl, arith, ◌∙◌, sym, ap, Bool-cases, Option-cases,
}
use gbc_smart_management.Store.{TableState}
use gbc_smart_management.Illumination.{
  Target, on, off, pending_text, is_on_text, is_pending_text, PendingActions, effective_status,
  Request, one, target_of, includes_id, holds, mark, unmark, click, click_all, Lights, send,
  LightStep, clicks, answers, LightRun, stay, then_step, initial_lights, light_card,
}

-- How many requests hold a table.
unfoldable pub holding : ℕ → List Request → ℕ
holding id [] = 0
holding id (r ∷ rs) = if holds r id then suc (holding id rs) else holding id rs

abbrev pub waits : Option Target → ℕ
waits none = 0
waits (some t) = 1

pub IsLocked : Lights → Type 0
IsLocked l = (id : ℕ) → holding id l.under_way ≡ waits (l.pending id)

pending_text-is_pending_text : (t : Target) → is_pending_text (pending_text t) ≡ true
unfolding pending_text is_pending_text
pending_text-is_pending_text on = refl
pending_text-is_pending_text off = refl

-- A click that makes a request finds its table not waiting.
click-one :
    (table : TableState) (p : PendingActions) (r : Request)
    → click table p ≡ some r
    → (p table.table_id ≡ none) × (r ≡ one table.table_id (target_of table.light_status))
unfolding click effective_status
click-one table p r h = elim (Option-cases (p table.table_id)) [
  | inl free ↦ (free, grind arith)
  | inr busy ↦ grind (arith, pending_text-is_pending_text busy.0)
]

holding-append :
    (id : ℕ) (before after : List Request) (r : Request)
    → holding id (before ++ r ∷ after)
      ≡ (if holds r id then 1 else 0) + holding id (before ++ after)
unfolding holding
holding-append id [] after r = ground arith
holding-append id (b ∷ before) after r = ground (arith, holding-append id before after r)

send-IsLocked :
    (table : TableState) (l : Lights) → IsLocked l → IsLocked (send (click table l.pending) l)
unfolding IsLocked send holding mark holds
send-IsLocked table l h id = elim (Option-cases (click table l.pending)) [
  | inl nothing ↦ rw nothing (h id)
  | inr made ↦ rw made.1 (marked made.0 (click-one table l.pending made.0 made.1))
]
  where
    marked :
        (r : Request)
        → (l.pending table.table_id ≡ none)
          × (r ≡ one table.table_id (target_of table.light_status))
        → holding id (r ∷ l.under_way) ≡ waits (mark r l.pending id)
    marked r c =
        rw c.1 (elim (Bool-cases (holds (one table.table_id (target_of table.light_status)) id)) [
          | inl held ↦ rw held (grind (arith, h id, c.0, (==_iff id table.table_id).0 held))
          | inr other ↦ rw other (h id)
        ])

answer-IsLocked :
    (l : Lights) (before : List Request) (r : Request) (after : List Request)
    → l.under_way ≡ before ++ r ∷ after
    → IsLocked l
    → IsLocked (record { pending = unmark r l.pending; under_way = before ++ after })
unfolding IsLocked unmark
answer-IsLocked l before r after e h id = elim (Bool-cases (holds r id)) [
  | inl held ↦ rw held (grind (arith, total, held))
  | inr free ↦ rw free (grind (arith, total, free))
]
  where
    total : (if holds r id then 1 else 0) + holding id (before ++ after) ≡ waits (l.pending id)
    total = sym (holding-append id before after r) ∙ ap (holding id) (sym e) ∙ h id

step-IsLocked : {l m : Lights} → LightStep l m → IsLocked l → IsLocked m
step-IsLocked {l} (clicks table) h = send-IsLocked table l h
step-IsLocked {l} (answers before r after e) h = answer-IsLocked l before r after e h

-- Whatever cards are clicked, and in whatever order the server answers: as many requests are under way
-- for a table as its card waits for, which is none or one.
pub clicks-IsLocked : {l : Lights} → LightRun initial_lights l → IsLocked l
unfolding IsLocked holding
clicks-IsLocked stay = λ id. refl
clicks-IsLocked (then_step run step) = step-IsLocked step (clicks-IsLocked run)

-- The button for all lights is not locked: where a card waits for a request of its own and all lights
-- are then switched, the answer to its own request takes its wait away, though the request for all
-- lights is still under way, and the card can be clicked again.
pub all_lights_unlock_early :
    (tables : List TableState) (id : ℕ) (own t : Target) (p : PendingActions)
    → includes_id (map (λ x. x.table_id) tables) id ≡ true
    → let l =
        send
          (some (click_all tables t))
          (record { pending = mark (one id own) p; under_way = one id own ∷ [] }) in
      let after : Lights = record {
        pending = unmark (one id own) l.pending;
        under_way = click_all tables t ∷ [];
      } in
      (l.pending id ≡ some t) × (after.pending id ≡ none) × (holding id after.under_way ≡ 1)
unfolding send click_all mark unmark holds holding
all_lights_unlock_early tables id own t p h = rw (h, (==_iff id id).1 refl) (refl, refl, refl)

is_on_text-pending_text :
    (t : Target) (ls : String)
    → t ≡ target_of ls
    → is_on_text (pending_text t) ≡ not (is_on_text ls)
is_on_text-pending_text t ls e = elim (Bool-cases (is_on_text ls)) [
  | inl lit ↦ rw (e, lit) (rw (lit_lem lit) off_lem)
  | inr dark ↦ rw (e, dark) (rw (dark_lem dark) on_lem)
]
  where
    lit_lem : is_on_text ls ≡ true → target_of ls ≡ off
    lit_lem h = unfold target_of in rw h

    dark_lem : is_on_text ls ≡ false → target_of ls ≡ on
    dark_lem h = unfold target_of in rw h

    on_lem : is_on_text (pending_text on) ≡ true
    on_lem = unfold is_on_text pending_text in refl

    off_lem : is_on_text (pending_text off) ≡ false
    off_lem = unfold is_on_text pending_text in refl

-- A click on a card that does not wait makes it wait, with its light shown the other way round, and
-- until then it cannot be clicked.
pub click_lem :
    (table : TableState) (p : PendingActions) (r : Request)
    → click table p ≡ some r
    → let q = mark r p in
      ((light_card table (q table.table_id)).is_on
        ≡ not (light_card table (p table.table_id)).is_on)
      × ((light_card table (q table.table_id)).is_pending ≡ true)
      × (click table q ≡ none)
unfolding light_card effective_status click
click_lem table p r h = rw c.1 (
    rw (marked, c.0)
      (
        is_on_text-pending_text _ table.light_status refl,
        pending_text-is_pending_text _,
        rw (pending_text-is_pending_text (target_of table.light_status)),
      ))
  where
    c : (p table.table_id ≡ none) × (r ≡ one table.table_id (target_of table.light_status))
    c = click-one table p r h

    marked :
        mark (one table.table_id (target_of table.light_status)) p table.table_id
        ≡ some (target_of table.light_status)
    marked = unfold mark holds in rw ((==_iff table.table_id table.table_id).1 refl)
