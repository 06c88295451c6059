-- ===== src/Socket.antt =====
-- frontend/src/services/websocket.js: the connection to the server that keeps itself up. The
-- browser's sockets and timers are part of the state; what the browser does next is a step of
-- `Socket.Steps`.
pub mod Steps
pub mod Invariant
pub mod Quiet
pub mod Messages
pub mod Stale
pub mod Recovery
use gbc_smart_management.Base.{
  ℕ, suc, ◌+◌, ◌*◌, ◌/◌, Bool, true, false, not, List, [], ◌∷◌, ◌++◌, Option, none, some, String,
  str_eq, ◌==◌, if◌then◌else◌, min, filter_by,
}
use gbc_smart_management.Listeners.{
  EventData, nothing, whole, tables, timeline, Listeners, callbacks, run_callbacks,
  global_listeners,
}
use gbc_smart_management.Store.{
  Store, TableState, RawBooking, set_tables, set_timeline, set_is_connected,
}

-- `readyState` of a socket of the browser.
pub data ReadyState : Type 0 where
  connecting opened closing closed : ReadyState

-- Class `WebSocketWrapper`; sockets, timers and tokens are named by numbers and texts.
pub record Wrapper : Type 0 where
  pub socket : Option ℕ
  pub token : Option String
  pub listeners : Listeners
  pub reconnect_timeout : Option ℕ
  pub reconnect_delay : ℕ
  pub intentional_disconnect : Bool

pub record State : Type 0 where
  pub instance_made : Bool
  pub wrapper : Wrapper
  pub ready : ℕ → ReadyState
  pub next_socket : ℕ
  pub timers : List ℕ
  pub next_timer : ℕ
  pub store : Store

abbrev pub max_reconnect_delay : ℕ
max_reconnect_delay = 5000

-- The constructor.
unfoldable pub new_wrapper : Wrapper
new_wrapper = record {
  socket = none;
  token = none;
  listeners = [];
  reconnect_timeout = none;
  reconnect_delay = 1000;
  intentional_disconnect = false;
}

abbrev pub update : (ℕ → ReadyState) → ℕ → ReadyState → ℕ → ReadyState
update ready i r j = if j == i then r else ready j

-- `connected`
unfoldable pub connected : State → Bool
connected s = elim s.wrapper.socket [
  | none ↦ false
  | some i ↦ elim (s.ready i) [ opened ↦ true | _ ↦ false ]
]

-- `emitLocal`
unfoldable pub emit_local : String → EventData → State → State
emit_local event d s = record s {
  store = run_callbacks (callbacks event s.wrapper.listeners) d s.store;
}

-- `connect`, once there is a token: a new socket, whose events come later.
unfoldable pub open_socket : String → State → State
open_socket token s = record s {
  wrapper = record (s.wrapper) {
    token = some token;
    intentional_disconnect = false;
    socket = some s.next_socket;
  };
  ready = update s.ready s.next_socket connecting;
  next_socket = suc s.next_socket;
}

abbrev pub or_else {ℓ} : {A : Type ℓ} → Option A → Option A → Option A
or_else none b = b
or_else (some a) b = some a

-- The empty text is no token.
unfoldable pub truthy : Option String → Option String
truthy none = none
truthy (some t) = if str_eq t "" then none else some t

unfoldable pub connect : Option String → State → State
connect token s = elim (truthy (or_else (truthy token) s.wrapper.token)) [
  | none ↦ s
  | some t ↦ open_socket t s
]

abbrev pub without_timer : Option ℕ → List ℕ → List ℕ
without_timer none ts = ts
without_timer (some t) ts = filter_by (λ u. not (u == t)) ts

-- `close()` of the browser: a closed socket stays closed.
abbrev pub close_ready : ReadyState → ReadyState
close_ready closed = closed
close_ready _ = closing

abbrev pub close_socket : Option ℕ → (ℕ → ReadyState) → ℕ → ReadyState
close_socket none ready = ready
close_socket (some i) ready = update ready i (close_ready (ready i))

-- `disconnect`
unfoldable pub disconnect : State → State
disconnect s = record s {
  wrapper = record (s.wrapper) {
    intentional_disconnect = true;
    reconnect_timeout = none;
    socket = none;
  };
  timers = without_timer s.wrapper.reconnect_timeout s.timers;
  ready = close_socket s.wrapper.socket s.ready;
}

-- `scheduleReconnect`
unfoldable pub schedule_reconnect : State → State
schedule_reconnect s = elim s.wrapper.reconnect_timeout [
  | some t ↦ s
  | none ↦ record s {
    wrapper = record (s.wrapper) { reconnect_timeout = some s.next_timer };
    timers = s.next_timer ∷ s.timers;
    next_timer = suc s.next_timer;
  }
]

abbrev pub set_delay : ℕ → State → State
set_delay d s = record s { wrapper = record (s.wrapper) { reconnect_delay = d } }

-- The callback of the reconnect timer, with the timer gone from the browser's list.
unfoldable pub on_timer : State → State
on_timer s =
    let cleared : State = record s { wrapper = record (s.wrapper) { reconnect_timeout = none } } in
    let after = connect none cleared in
    set_delay (min (after.wrapper.reconnect_delay * 3 / 2) max_reconnect_delay) after

-- `onopen`
unfoldable pub on_open : State → State
on_open s = emit_local "connect" nothing (set_delay 1000 s)

-- `onclose`
unfoldable pub on_close : State → State
on_close s =
    let told = emit_local "disconnect" nothing s in
    let dropped : State = record told { wrapper = record (told.wrapper) { socket = none } } in
    if dropped.wrapper.intentional_disconnect then dropped else schedule_reconnect dropped

-- A message: text that is no JSON or has no event, or an event with what it carries.
pub data Payload : Type 0 where
  unreadable : Payload
  message : String → Option (List TableState) → Option (List RawBooking) → Payload

-- `onmessage`
unfoldable pub on_message : Payload → State → State
on_message unreadable s = s
on_message (message event ts tl) s =
    if str_eq event ""
    then s
    else if str_eq event "INITIAL_STATE"
    then emit_local "INITIAL_STATE" (whole ts tl) s
    else if str_eq event "TABLES_UPDATED"
    then emit_local "TABLES_UPDATED" (tables ts) s
    else if str_eq event "TIMELINE_UPDATED"
    then emit_local "TIMELINE_UPDATED" (timeline tl) s
    else emit_local event (whole ts tl) s

-- The first lines of `connectSocket`.
unfoldable pub make_instance : State → State
make_instance s = if s.instance_made then s else record s {
  instance_made = true;
  wrapper = record new_wrapper { listeners = global_listeners [] };
}

abbrev pub same_token : Option String → String → Bool
same_token none token = false
same_token (some t) token = str_eq t token

-- `connectSocket`
unfoldable pub connect_socket : String → State → State
connect_socket token s =
    let made = make_instance s in
    if same_token made.wrapper.token token
    then (if connected made then made else connect (some token) made)
    else connect (some token)
        (disconnect (record made { wrapper = record (made.wrapper) { token = some token } }))

-- `disconnectSocket`
unfoldable pub disconnect_socket : State → State
disconnect_socket s =
    if s.instance_made
    then (let off_line = disconnect s in
        record off_line { store = set_is_connected false off_line.store })
    else s

-- The page as it is loaded.
abbrev pub initial_state : Store → State
initial_state store = record {
  instance_made = false;
  wrapper = new_wrapper;
  ready = λ i. closed;
  next_socket = 0;
  timers = [];
  next_timer = 0;
  store = store;
}
