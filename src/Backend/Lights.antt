-- ===== src/Backend/Lights.antt =====
-- backend/internal/hardware/mqtt_client.go and hardware/main/main.ino: the commands for the lights on their
-- way to the controller, its relays with their delay, and the acknowledgements on their way back. What is
-- published is delivered in order; the synchronisation of a new connection is not among the messages.
pub mod Told
pub mod Relays
pub mod Confirmed
pub mod Agreement
use gbc_smart_management.Base.{
  ℕ, ◌-◌, ◌≤◌, leb, ltb, ◌==◌, Bool, true, false, ◌&&◌, ◌≡◌, List, [], ◌∷◌, ◌++◌, length, Option,
  some, none, String, str_eq, if◌then◌else◌,
}
use gbc_smart_management.Backend.Tables.{
  Tables, TableCell, LightCommand, LiveBooking, offer, set_lights, pending_of, update_cell,
  occupied_by, vacated, is_meant, confirm_light_status,
}

-- `Hardware::TableState`, with the level of its pin; a `commandId` is there or empty.
pub record Relay : Type 0 where
  pub is_on : Bool
  pub pending : Bool
  pub target_is_on : Bool
  pub has_command_id : Bool
  pub timestamp : ℕ

-- `acknowledgeCommand`; the table 0 stands for all.
pub record Ack : Type 0 where
  pub table_id : ℕ
  pub is_on : Bool

-- With the relay, if any, that the loop has switched and whose `pending` it has not yet reset.
pub record Controller : Type 0 where
  pub relay : ℕ → Relay
  pub acks : List Ack
  pub switching : Option ℕ

-- `Hardware::begin`
abbrev pub first_relay : Relay
first_relay = record {
  is_on = false;
  pending = false;
  target_is_on = false;
  has_command_id = false;
  timestamp = 0;
}

abbrev pub queued : ℕ → Bool → Bool → Relay → Relay
queued now has_id is_on r = record r {
  pending = true;
  target_is_on = is_on;
  has_command_id = has_id;
  timestamp = now;
}

-- `queueState` and `queueStateAll`
unfoldable pub queue_state : ℕ → ℕ → Bool → Controller → Controller
queue_state now i is_on d = record d {
  relay = λ j. if j == i then queued now true is_on (d.relay j) else d.relay j;
}

unfoldable pub queue_state_all : ℕ → Bool → Controller → Controller
queue_state_all now is_on d = record d {
  relay = λ j. if leb 1 j && leb j 4 then queued now false is_on (d.relay j) else d.relay j;
}

unfoldable pub acknowledge : ℕ → Bool → Controller → Controller
acknowledge i is_on d = record d { acks = d.acks ++ record { table_id = i; is_on = is_on } ∷ [] }

-- The message of a command, in `mqtt_event_handler`.
unfoldable pub is_on_command : LightCommand → Bool
is_on_command c = str_eq c.light_state "ON"

unfoldable pub receive_command : ℕ → LightCommand → Controller → Controller
receive_command now c d =
    let is_on = is_on_command c in
    if c.table_id == 0
    then queue_state_all now is_on (acknowledge 0 is_on d)
    else if leb 1 c.table_id && leb c.table_id 4
    then queue_state now c.table_id is_on d
    else d

-- `update`, of a relay whose state has waited half a second, up to its acknowledgement, and behind it.
unfoldable pub has_waited : ℕ → Relay → Bool
has_waited now r = r.pending && leb 500 (now - r.timestamp)

abbrev pub put_relay : ℕ → Relay → (ℕ → Relay) → ℕ → Relay
put_relay i r relay j = if j == i then r else relay j

unfoldable pub switch_relay : ℕ → Controller → Controller
switch_relay i d =
    let r = d.relay i in
    let taken : Controller = record d {
      relay = put_relay i (record r { is_on = r.target_is_on }) d.relay;
      switching = some i;
    } in
    if r.has_command_id then acknowledge i r.target_is_on taken else taken

unfoldable pub finish_relay : ℕ → Controller → Controller
finish_relay i d = record d {
  relay = put_relay i (record (d.relay i) { pending = false }) d.relay;
  switching = none;
}

-- The tables of the server with the commands in its channel, the commands of operations that have changed
-- the tables and not yet sent them, and the controller.
pub record Lights : Type 0 where
  pub tables : Tables
  pub calls : List LightCommand
  pub controller : Controller

abbrev pub HasRoom : Tables → Type 0
HasRoom s = ltb (length s.commands.items) s.commands.capacity ≡ true

abbrev pub taken_from : List LightCommand → Tables → Tables
taken_from rest s = record s { commands = record (s.commands) { items = rest } }

abbrev pub sent_to : LightCommand → Tables → Tables
sent_to c s = record s { commands = offer c s.commands }

-- What an operation makes of the tables under the lock of the cache, and the command that it sends later.
pub data CommandChange (s : Tables) : (ℕ → TableCell) → LightCommand → Type 0 where
  overrides :
      (target : ℕ) (to_on : Bool)
      → CommandChange s
          (set_lights target (pending_of to_on) s.cell)
          (record { table_id = target; light_state = if to_on then "ON" else "OFF" })
  activates :
      (i : ℕ) (b : LiveBooking)
      → 1 ≤ i
      → CommandChange s
          (update_cell i (occupied_by b (s.cell i)) s.cell)
          (record { table_id = i; light_state = "ON" })
  deactivates :
      (i : ℕ)
      → 1 ≤ i
      → CommandChange s
          (update_cell i (vacated (s.cell i)) s.cell)
          (record { table_id = i; light_state = "OFF" })

-- The goroutines of the server, with its MQTT client, which loses a command where it is not connected;
-- and the two tasks of the controller, its loop, which goes through a relay in two steps, and its handler of
-- messages.
pub data LightStep (s : Lights) : Lights → Type 0 where
  changes :
      (cell : ℕ → TableCell) (c : LightCommand)
      → CommandChange s.tables cell c
      → LightStep s
          (record s { tables = record (s.tables) { cell = cell }; calls = s.calls ++ c ∷ [] })
  sends :
      (before : List LightCommand) (c : LightCommand) (after : List LightCommand)
      → s.calls ≡ before ++ c ∷ after
      → LightStep s (record s { tables = sent_to c s.tables; calls = before ++ after })
  receives :
      (now : ℕ) (c : LightCommand) (rest : List LightCommand)
      → s.tables.commands.items ≡ c ∷ rest
      → LightStep s (record s {
        tables = taken_from rest s.tables;
        controller = receive_command now c s.controller;
      })
  loses :
      (c : LightCommand) (rest : List LightCommand)
      → s.tables.commands.items ≡ c ∷ rest
      → LightStep s (record s { tables = taken_from rest s.tables })
  switches :
      (now i : ℕ)
      → 1 ≤ i
      → s.controller.switching ≡ none
      → has_waited now (s.controller.relay i) ≡ true
      → LightStep s (record s { controller = switch_relay i s.controller })
  finishes :
      (i : ℕ)
      → s.controller.switching ≡ some i
      → LightStep s (record s { controller = finish_relay i s.controller })
  confirms :
      (a : Ack) (rest : List Ack)
      → s.controller.acks ≡ a ∷ rest
      → LightStep s (record s {
        tables = confirm_light_status a.table_id a.is_on s.tables;
        controller = record (s.controller) { acks = rest };
      })

pub data LightRun (s : Lights) : Lights → Type 0 where
  idle : LightRun s s
  and_then : {t u : Lights} → LightRun s t → LightStep t u → LightRun s u
