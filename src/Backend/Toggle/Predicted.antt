-- ===== src/Backend/Toggle/Predicted.antt =====
-- What the page shows of a request that is under way.
use gbc_smart_management.Base.{
  ℕ, ◌≤◌, Bool, true, false, ◌≡◌, ◌⊎◌, inl, inr, refl, sym, ◌∙◌, ap, subst, arith, List, map, none,
  some, decimal, number, Bool-cases, some_by,
}
use gbc_smart_management.Illumination.{
  Request, one, all, Target, on, off, target_text, pending_text, holds, aim, mark, click, click_all,
  PendingActions, effective_status, is_pending_text, target_of,
}
use gbc_smart_management.Backend.Tables.{
  Tables, TableCell, get_all, get_table, set_light_status, set_lights, is_meant, pending_of,
  send_command, broadcast,
}
use gbc_smart_management.Backend.Bookings.{Answer, ok}
use gbc_smart_management.Backend.Hub.{state_of_cell, light_text}
use gbc_smart_management.Backend.Toggle.{
  ToggleInput, number_id, whole_number, table_in_range, meant_table, is_target, is_there,
  handle_toggle, light_request,
}

-- The four tables.
table_cases : (i : ℕ) → 1 ≤ i → i ≤ 4 → (i ≡ 1) ⊎ (i ≡ 2) ⊎ (i ≡ 3) ⊎ (i ≡ 4)
table_cases i least most = ground arith

meant_table-number : (i : ℕ) → 1 ≤ i → i ≤ 4 → meant_table (number_id i) ≡ some i
unfolding meant_table whole_number table_in_range decimal number
meant_table-number i least most = elim (table_cases i least most) [
  | inl e ↦ rw e refl
  | inr (inl e) ↦ rw e refl
  | inr (inr (inl e)) ↦ rw e refl
  | inr (inr (inr e)) ↦ rw e refl
]

is_on : Target → Bool
is_on on = true
is_on off = false

is_there-one : (i : ℕ) (s : Tables) → 1 ≤ i → i ≤ 4 → is_there i s ≡ true
unfolding is_there get_table
is_there-one i s least most = elim (table_cases i least most) [
  | inl e ↦ rw e refl
  | inr (inl e) ↦ rw e refl
  | inr (inr (inl e)) ↦ rw e refl
  | inr (inr (inr e)) ↦ rw e refl
]

handle_toggle-one :
    (i : ℕ) (t : Target) (s : Tables)
    → 1 ≤ i
    → i ≤ 4
    → handle_toggle (some (light_request (one i t))) s
      ≡ (ok (light_request (one i t)), set_light_status i (is_on t) s)
unfolding light_request target_text is_target is_on handle_toggle set_light_status
handle_toggle-one i on s least most =
    rw (handle_toggle, meant_table-number i least most, is_there-one i s least most) refl
handle_toggle-one i off s least most =
    rw (handle_toggle, meant_table-number i least most, is_there-one i s least most) refl

handle_toggle-all :
    (ids : List ℕ) (t : Target) (s : Tables)
    → handle_toggle (some (light_request (all ids t))) s
      ≡ (ok (light_request (all ids t)), set_light_status 0 (is_on t) s)
unfolding handle_toggle light_request target_text is_target is_there meant_table is_on
handle_toggle-all ids on s = refl
handle_toggle-all ids off s = refl

-- The light of a table after a request for it, and of another one.
light_of_meant :
    (target j : ℕ) (t : Target) (s : Tables)
    → is_meant target j ≡ true
    → light_text ((set_light_status target (is_on t) s).cell j).light ≡ pending_text t
unfolding set_light_status send_command broadcast set_lights light_text pending_text pending_of
    is_on
light_of_meant target j on s meant = rw meant refl
light_of_meant target j off s meant = rw meant refl

light_of_other :
    (target j : ℕ) (to_on : Bool) (s : Tables)
    → is_meant target j ≡ false
    → (set_light_status target to_on s).cell j ≡ s.cell j
unfolding set_light_status send_command broadcast set_lights
light_of_other target j to_on s other = rw other refl

-- The table with its light, as the page shows it during the request, and as the server has it after.
abbrev pub IsPredicted : ℕ → Request → PendingActions → Tables → Tables → Type 0
IsPredicted j r p before after =
    effective_status (mark r p j) (state_of_cell (before.cell j)).light_status
    ≡ (state_of_cell (after.cell j)).light_status

set_light_status-IsPredicted :
    (target j : ℕ) (r : Request) (p : PendingActions) (s : Tables)
    → holds r j ≡ is_meant target j
    → p j ≡ none
    → IsPredicted j r p s (set_light_status target (is_on (aim r)) s)
unfolding mark effective_status state_of_cell
set_light_status-IsPredicted target j r p s same free = elim (Bool-cases (is_meant target j)) [
  | inl meant ↦ rw (same, meant) (sym (light_of_meant target j (aim r) s meant))
  | inr other ↦
      rw (same, other, free)
        (sym (
          ap (λ (c : TableCell). light_text c.light)
            (light_of_other target j (is_on (aim r)) s other)))
]

holds-one : (i j : ℕ) (t : Target) → 1 ≤ i → i ≤ 4 → holds (one i t) j ≡ is_meant i j
unfolding holds is_meant
holds-one i j t least most = elim (table_cases i least most) [
  | inl e ↦ rw e refl
  | inr (inl e) ↦ rw e refl
  | inr (inr (inl e)) ↦ rw e refl
  | inr (inr (inr e)) ↦ rw e refl
]

-- The tables of the cache have the ids from 1 to 4.
abbrev pub HasIds : Tables → Type 0
HasIds s = (k : ℕ) → (s.cell k).table_id ≡ k

holds-all :
    (j : ℕ) (t : Target) (s : Tables)
    → HasIds s
    → 1 ≤ j
    → j ≤ 4
    → holds (click_all (map state_of_cell (get_all s)) t) j ≡ is_meant 0 j
unfolding holds is_meant click_all get_all state_of_cell some_by
holds-all j t s ids least most =
    rw (ids 1, ids 2, ids 3, ids 4)
      (elim (table_cases j least most) [
        | inl e ↦ rw e refl
        | inr (inl e) ↦ rw e refl
        | inr (inr (inl e)) ↦ rw e refl
        | inr (inr (inr e)) ↦ rw e refl
      ])

click-one :
    (i : ℕ) (s : Tables) (p : PendingActions) (r : Request)
    → HasIds s
    → click (state_of_cell (s.cell i)) p ≡ some r
    → (t : Target) × (r ≡ one i t)
unfolding click state_of_cell
click-one i s p r ids h =
    let l = light_text (s.cell i).light in
    elim (Bool-cases (is_pending_text (effective_status (p (s.cell i).table_id) l))) [
      | inl waits ↦ cc (rw waits at h)
      | inr free ↦ (target_of l, sym (cc (rw free at h)) ∙ ap (λ k. one k (target_of l)) (ids i))
    ]

-- A request of the page, for the tables that the server has.
abbrev pub IsSent : ℕ → PendingActions → Tables → Request → Type 0
IsSent i p s r =
    (click (state_of_cell (s.cell i)) p ≡ some r)
    ⊎ ((t : Target) × (r ≡ click_all (map state_of_cell (get_all s)) t))

abbrev pub IsDone : ℕ → PendingActions → Tables → Request → Type 0
IsDone j p s r =
    ((handle_toggle (some (light_request r)) s).0 ≡ ok (light_request r))
    × IsPredicted j r p s (handle_toggle (some (light_request r)) s).1

set_light_status-IsDone :
    (target j : ℕ) (p : PendingActions) (s : Tables) (r : Request)
    → handle_toggle (some (light_request r)) s
      ≡ (ok (light_request r), set_light_status target (is_on (aim r)) s)
    → holds r j ≡ is_meant target j
    → p j ≡ none
    → IsDone j p s r
set_light_status-IsDone target j p s r done same free = (
  ap (λ x. x.0) done,
  set_light_status-IsPredicted target j r p s same free
      ∙ sym (
          ap (λ (x : Answer ToggleInput × Tables). (state_of_cell (x.1.cell j)).light_status) done),
)

-- The page shows the tables of the server, whose ids are 1 to 4, and a card of them or one of the
-- buttons for all lights is clicked, where the card waits for nothing: the server accepts the request,
-- and the light of each table without another action of its own under way is in the state, after
-- it, in which the page has shown it since the click.
pub toggle_is_as_shown :
    (i j : ℕ) (p : PendingActions) (s : Tables) (r : Request)
    → 1 ≤ i
    → i ≤ 4
    → 1 ≤ j
    → j ≤ 4
    → HasIds s
    → p j ≡ none
    → IsSent i p s r
    → IsDone j p s r
unfolding click_all is_on
toggle_is_as_shown i j p s r first last least most ids free (inl clicked) =
    let (t, same) = click-one i s p r ids clicked in
    subst (IsDone j p s) (sym same) (
      set_light_status-IsDone i j p s (one i t) (handle_toggle-one i t s first last)
        (holds-one i j t first last) free)
toggle_is_as_shown i j p s r first last least most ids free (inr (t, same)) =
    subst (IsDone j p s) (sym same) (
      set_light_status-IsDone 0 j p s (click_all (map state_of_cell (get_all s)) t)
        (handle_toggle-all _ t s) (holds-all j t s ids least most) free)
