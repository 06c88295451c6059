-- ===== src/Backend/Hub.antt =====
-- backend/internal/hub/ws_hub.go: what is broadcast of the tables and the timeline, on its way through the
-- hub to the stores of the pages. A page takes its messages in order, as `received` of Socket.Messages
-- does.
pub mod Queues
pub mod Served
pub mod Pages
use gbc_smart_management.Base.{
  suc, not, ◌&&◌, ◌++◌, ℕ, ltb, ◌==◌, Bool, true, false, ◌&&◌, ◌||◌, ◌≡◌, ◌⊎◌, List, [], ◌∷◌, ◌++◌,
  length, map, Option, some, none, String, str_eq, pos_part, if◌then◌else◌,
}
use gbc_smart_management.Store.{Store, TableState, CurrentBooking, RawBooking}
use gbc_smart_management.Socket.{Payload, message}
use gbc_smart_management.Socket.Messages.{received}
use gbc_smart_management.Backend.Rows.{Row}
use gbc_smart_management.Backend.Tables.{
  Channel, offer, Tables, TableCell, Occupancy, available, busy, LightStatus, light_on, light_off,
  pending_on, pending_off, LiveBooking, get_all, update_cell, occupied_by, vacated, set_lights,
  pending_of, some_table, is_meant, same_light, final_of, is_pending, settled_light, rebooked,
}
use gbc_smart_management.Backend.Listing.{raw_of}

-- The texts of `domain.TableStatus` and `domain.LightStatus`.
unfoldable pub occupancy_text : Occupancy → String
occupancy_text available = "AVAILABLE"
occupancy_text busy = "BUSY"

unfoldable pub light_text : LightStatus → String
light_text light_on = "ON"
light_text light_off = "OFF"
light_text pending_on = "PENDING-ON"
light_text pending_off = "PENDING-OFF"

-- `domain.CurrentBooking` and `domain.TableState`, as the pages read them.
unfoldable pub current_of : LiveBooking → CurrentBooking
current_of b = record {
  booking_id = b.booking_id;
  booker_name = b.booker_name;
  booker_mobile = b.booker_mobile;
  check_in_time = some b.check_in;
  check_out_time = some b.check_out;
  amount = pos_part b.amount;
  is_paid = b.is_paid;
}

unfoldable pub state_of_cell : TableCell → TableState
state_of_cell t = record {
  table_id = t.table_id;
  table_name = t.table_name;
  status = occupancy_text t.occupancy;
  light_status = light_text t.light;
  current_booking = elim t.current [ none ↦ none | some b ↦ some (current_of b) ];
}

-- The three messages of the hub.
unfoldable pub tables_message : List TableCell → Payload
tables_message ts = message "TABLES_UPDATED" (some (map state_of_cell ts)) none

unfoldable pub timeline_message : List Row → Payload
timeline_message rows = message "TIMELINE_UPDATED" none (some (map raw_of rows))

unfoldable pub initial_message : List TableCell → Option (List Row) → Payload
initial_message ts rows =
    message "INITIAL_STATE" (some (map state_of_cell ts))
      (elim rows [ none ↦ none | some rs ↦ some (map raw_of rs) ])

-- How far `sendInitialState` has come.
pub data Greeting : Type 0 where
  due : Greeting
  made : Payload → Greeting
  queued : Greeting

-- `Client`, and the page at its other end.
pub record Connection : Type 0 where
  pub role : String
  pub send : Channel Payload
  pub greeting : Greeting
  pub store : Store

abbrev pub send_buf_size : ℕ
send_buf_size = 32

unfoldable pub is_staff : String → Bool
is_staff role = str_eq role "admin" || str_eq role "staff"

-- A message that does not fit is dropped.
unfoldable pub queue_message : Payload → Connection → Connection
queue_message m c = record c { send = offer m c.send }

-- The loops of `broadcastToAll` and `broadcastTimeline`, at one client.
unfoldable pub broadcast_to : Payload → Connection → Connection
broadcast_to m c = if is_staff c.role then queue_message m c else c

-- `Hub`, with the channels and the cache of the tables behind it: how many operations have changed the
-- tables and not yet read them for their broadcast, and what others have read and not yet sent. A
-- client that is not registered is `none`.
pub record Hub : Type 0 where
  pub tables : Tables
  pub due : ℕ
  pub snapshots : List (List TableCell)
  pub timelines : Channel (List Row)
  pub clients : ℕ → Option Connection

unfoldable pub broadcast_to_all : Payload → (ℕ → Option Connection) → ℕ → Option Connection
broadcast_to_all m clients i = elim (clients i) [ none ↦ none | some c ↦ some (broadcast_to m c) ]

unfoldable pub put_client : ℕ → Option Connection → Hub → Hub
put_client i c h = record h { clients = λ j. if j == i then c else h.clients j }

-- `sendInitialState`, which reads the tables, and the timeline for an administrator and the staff, where
-- it can be read; and then queues what it has made.
unfoldable pub make_initial_state : Option (List Row) → Hub → Connection → Connection
make_initial_state rows h c = record c {
  greeting = made (initial_message (get_all h.tables) (if is_staff c.role then rows else none));
}

unfoldable pub send_initial_state : Payload → Connection → Connection
send_initial_state m c = record (queue_message m c) { greeting = queued }

unfoldable pub deliver : Payload → List Payload → Connection → Connection
deliver m rest c = record c { send = record (c.send) { items = rest }; store = received m c.store }

abbrev pub IsRoomy : {A : Type 0} → Channel A → Type 0
IsRoomy c = ltb (length c.items) c.capacity ≡ true

unfoldable pub new_client : String → Store → Connection
new_client role store = record {
  role = role;
  send = record { items = []; capacity = send_buf_size };
  greeting = due;
  store = store;
}

-- What the operations of the cache do under its lock, where they go on to broadcast.
pub data CacheChange (s : Tables) : (ℕ → TableCell) → Type 0 where
  activates :
      (i : ℕ) (b : LiveBooking) → CacheChange s (update_cell i (occupied_by b (s.cell i)) s.cell)
  deactivates : (i : ℕ) → CacheChange s (update_cell i (vacated (s.cell i)) s.cell)
  sets_lights :
      (target : ℕ) (to_on : Bool) → CacheChange s (set_lights target (pending_of to_on) s.cell)
  confirms_lights :
      (target : ℕ) (is_lit : Bool)
      → some_table (λ i. is_meant target i && not (same_light (s.cell i).light (final_of is_lit)))
        ≡ true
      → CacheChange s (set_lights target (final_of is_lit) s.cell)
  confirms_sync :
      some_table (λ i. is_pending (s.cell i).light) ≡ true
      → CacheChange s (λ i. record (s.cell i) { light = settled_light (s.cell i).light })
  rebooks : (i : ℕ) (b : LiveBooking) → CacheChange s (update_cell i (rebooked b (s.cell i)) s.cell)

abbrev pub rest_of : List (List TableCell) → Tables → Tables
rest_of rest s = record s { broadcasts = record (s.broadcasts) { items = rest } }

-- The two parts of `broadcast`, behind the lock.
unfoldable pub take_snapshot : ℕ → Hub → Hub
take_snapshot n h = record h { due = n; snapshots = h.snapshots ++ get_all h.tables ∷ [] }

unfoldable pub send_snapshot : List TableCell → List (List TableCell) → Hub → Hub
send_snapshot ts others h = record h {
  tables = record (h.tables) { broadcasts = offer ts h.tables.broadcasts };
  snapshots = others;
}

-- `HandleConn`, `Run`, and the pumps of the clients, with the goroutines of the cache and the
-- timeline beside them. A message waits for room in `sendInitialState` only.
pub data HubStep (h : Hub) : Hub → Type 0 where
  changes :
      (cell : ℕ → TableCell)
      → CacheChange h.tables cell
      → HubStep h (record h { tables = record (h.tables) { cell = cell }; due = suc h.due })
  snaps : (n : ℕ) → h.due ≡ suc n → HubStep h (take_snapshot n h)
  publishes :
      (before : List (List TableCell)) (ts : List TableCell) (after : List (List TableCell))
      → h.snapshots ≡ before ++ ts ∷ after
      → HubStep h (send_snapshot ts (before ++ after) h)
  emits : (rows : List Row) → HubStep h (record h { timelines = offer rows h.timelines })
  registers :
      (i : ℕ) (role : String) (store : Store)
      → h.clients i ≡ none
      → HubStep h (put_client i (some (new_client role store)) h)
  reads :
      (i : ℕ) (c : Connection) (rows : Option (List Row))
      → h.clients i ≡ some c
      → c.greeting ≡ due
      → HubStep h (put_client i (some (make_initial_state rows h c)) h)
  greets :
      (i : ℕ) (c : Connection) (m : Payload)
      → h.clients i ≡ some c
      → c.greeting ≡ made m
      → IsRoomy c.send
      → HubStep h (put_client i (some (send_initial_state m c)) h)
  sends_tables :
      (ts : List TableCell) (rest : List (List TableCell))
      → h.tables.broadcasts.items ≡ ts ∷ rest
      → HubStep h (record h {
        tables = rest_of rest h.tables;
        clients = broadcast_to_all (tables_message ts) h.clients;
      })
  sends_timeline :
      (rows : List Row) (rest : List (List Row))
      → h.timelines.items ≡ rows ∷ rest
      → HubStep h (record h {
        timelines = record (h.timelines) { items = rest };
        clients = broadcast_to_all (timeline_message rows) h.clients;
      })
  delivers :
      (i : ℕ) (c : Connection) (m : Payload) (rest : List Payload)
      → h.clients i ≡ some c
      → c.send.items ≡ m ∷ rest
      → HubStep h (put_client i (some (deliver m rest c)) h)
  unregisters : (i : ℕ) → HubStep h (put_client i none h)

pub data HubRun (h : Hub) : Hub → Type 0 where
  begun : HubRun h h
  goes_on : {k l : Hub} → HubRun h k → HubStep k l → HubRun h l
