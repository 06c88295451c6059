-- ===== src/Backend/Lights/Told.antt =====
-- What the server is still told of a table, and the commands of the server.
use gbc_smart_management.Base.{
  ◌==◌, subst, ℕ, Bool, true, false, ◌&&◌, ◌||◌, ◌≡◌, ◌⊎◌, inl, inr, refl, ◌∙◌, ap, arith, List, [],
  ◌∷◌, ◌++◌, Option, none, some, some_by, if◌then◌else◌, Bool-cases,
}
use gbc_smart_management.Backend.Tables.{
  Tables, TableCell, LightCommand, LightStatus, is_meant, settled_light, final_of, set_lights,
  offer,
}
use gbc_smart_management.Backend.Lights.{
  Relay, Ack, Controller, Lights, HasRoom, CommandChange, overrides, activates, deactivates,
  sent_to,
}

-- The last acknowledgement under way for a table, if there is one.
abbrev pub last_ack : ℕ → List Ack → Option Bool
last_ack i [] = none
last_ack i (a ∷ acks) = elim (last_ack i acks) [
  | none ↦ if is_meant a.table_id i then some a.is_on else none
  | some echo ↦ some echo
]

-- The acknowledgement of a state that waits at the relay comes after those.
abbrev pub echo_of : Relay → Option Bool → Option Bool
echo_of r m = if r.pending && r.has_command_id then some r.target_is_on else m

abbrev pub state_of : Relay → Bool
state_of r = if r.pending then r.target_is_on else r.is_on

-- What the server is still told of the table is the state that the relay takes.
abbrev pub Told : LightStatus → Bool → Option Bool → Type 0
Told light state none = settled_light light ≡ final_of state
Told light state (some echo) = echo ≡ state

abbrev pub is_commanded : ℕ → List LightCommand → Bool
is_commanded i commands = some_by (λ c. is_meant c.table_id i) commands

-- The relay as it is once the loop is behind it.
abbrev pub effective : Option ℕ → ℕ → Relay → Relay
effective none i r = r
effective (some j) i r = if j == i then record r { pending = false } else r

abbrev pub relay_at : ℕ → Controller → Relay
relay_at i d = effective d.switching i (d.relay i)

-- A command for the table is under way to the controller.
abbrev pub is_asked : ℕ → Lights → Bool
is_asked i s = is_commanded i s.tables.commands.items || is_commanded i s.calls

abbrev pub IsTold : ℕ → Lights → Type 0
IsTold i s =
    (is_asked i s ≡ true)
    ⊎ Told (s.tables.cell i).light (state_of (relay_at i s.controller))
        (echo_of (relay_at i s.controller) (last_ack i s.controller.acks))

pub last_ack_end :
    (i : ℕ) (a : Ack) (acks : List Ack)
    → last_ack i (acks ++ a ∷ [])
      ≡ (if is_meant a.table_id i then some a.is_on else last_ack i acks)
last_ack_end i a [] = refl
last_ack_end i a (b ∷ acks) =
    rw (last_ack_end i a acks) (elim (Bool-cases (is_meant a.table_id i)) [
      | inl own ↦ rw own refl
      | inr other ↦ rw other refl
    ])

is_commanded_end :
    (i : ℕ) (c : LightCommand) (commands : List LightCommand)
    → is_commanded i (commands ++ c ∷ []) ≡ (is_commanded i commands || is_meant c.table_id i)
unfolding some_by
is_commanded_end i c [] = ground arith
is_commanded_end i c (d ∷ commands) = ground (arith, is_commanded_end i c commands)

asked_still :
    (i : ℕ) (c : LightCommand) (after commands calls : List LightCommand)
    → calls ≡ c ∷ after
    → (is_commanded i commands || is_commanded i calls) ≡ true
    → (is_commanded i commands || is_meant c.table_id i || is_commanded i after) ≡ true
unfolding some_by
asked_still i c after commands calls taken h =
    let split : (is_commanded i commands || is_commanded i (c ∷ after)) ≡ true =
      subst (λ xs. (is_commanded i commands || is_commanded i xs) ≡ true) taken h in
    ground (arith, split)

-- A change of the tables by the server, and the sending of its command.
change-light :
    (i : ℕ) (s : Tables) (cell : ℕ → TableCell) (c : LightCommand)
    → CommandChange s cell c
    → is_meant c.table_id i ≡ false
    → (cell i).light ≡ (s.cell i).light
unfolding set_lights is_meant
change-light i s cell c (overrides target to_on) other = rw other refl
change-light i s cell c (activates j b first) other = ground arith
change-light i s cell c (deactivates j first) other = ground arith

pub changes_step :
    (i : ℕ) (s : Lights) (cell : ℕ → TableCell) (c : LightCommand)
    → CommandChange s.tables cell c
    → IsTold i s
    → IsTold i (record s { tables = record (s.tables) { cell = cell }; calls = s.calls ++ c ∷ [] })
changes_step i s cell c change told = elim (Bool-cases (is_meant c.table_id i)) [
  | inl own ↦ inl (rw (is_commanded_end i c s.calls, own) (ground arith))
  | inr other ↦ elim told [
    | inl before ↦ inl (rw (is_commanded_end i c s.calls) (ground (arith, before)))
    | inr waits ↦ inr (rw (change-light i s.tables cell c change other) waits)
  ]
]

pub sends_step :
    (i : ℕ) (s : Lights) (before : List LightCommand) (c : LightCommand) (after : List LightCommand)
    → before ≡ []
    → HasRoom s.tables
    → s.calls ≡ before ++ c ∷ after
    → IsTold i s
    → IsTold i (record s { tables = sent_to c s.tables; calls = before ++ after })
unfolding offer
sends_step i s before c after first room waits told =
    let taken : s.calls ≡ c ∷ after = waits ∙ ap (λ xs. xs ++ c ∷ after) first in
    rw (first, room)
      (elim told [
        | inl asked ↦ inl (
            rw (is_commanded_end i c s.tables.commands.items)
              (asked_still i c after s.tables.commands.items s.calls taken asked))
        | inr known ↦ inr known
      ])
