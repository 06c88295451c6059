-- ===== src/Listeners.antt =====
-- frontend/src/services/websocket.js: the listeners that `connectSocket` registers, and how an event
-- reaches them.
use gbc_smart_management.Base.{
  Bool, true, false, not, List, [], ◌∷◌, ◌++◌, Option, none, some, String, str_eq, if◌then◌else◌,
  filter_by,
}
use gbc_smart_management.Store.{
  Store, TableState, RawBooking, set_tables, set_timeline, set_is_connected,
}

-- The functions that `connectSocket` registers.
pub data Callback : Type 0 where
  on_connect on_disconnect on_initial_state on_tables_updated on_timeline_updated : Callback

-- What `emitLocal` hands to a callback: nothing, a reason, or a part of a message.
pub data EventData : Type 0 where
  nothing : EventData
  whole : Option (List TableState) → Option (List RawBooking) → EventData
  tables : Option (List TableState) → EventData
  timeline : Option (List RawBooking) → EventData

abbrev pub Listeners : Type 0
Listeners = List (String × List Callback)

-- `this.listeners[event]`; a missing entry has no callbacks.
unfoldable pub callbacks : String → Listeners → List Callback
callbacks event [] = []
callbacks event ((e, cs) ∷ ls) = if str_eq e event then cs else callbacks event ls

-- `on`
unfoldable pub on : String → Callback → Listeners → Listeners
on event c [] = (event, c ∷ []) ∷ []
on event c ((e, cs) ∷ ls) =
    if str_eq e event then (e, cs ++ c ∷ []) ∷ ls else (e, cs) ∷ on event c ls

abbrev pub same_callback : Callback → Callback → Bool
same_callback on_connect on_connect = true
same_callback on_disconnect on_disconnect = true
same_callback on_initial_state on_initial_state = true
same_callback on_tables_updated on_tables_updated = true
same_callback on_timeline_updated on_timeline_updated = true
same_callback _ _ = false

-- `off`
unfoldable pub off : String → Callback → Listeners → Listeners
off event c [] = []
off event c ((e, cs) ∷ ls) =
    if str_eq e event
    then (e, filter_by (λ cb. not (same_callback cb c)) cs) ∷ ls
    else (e, cs) ∷ off event c ls

-- The bodies of the five callbacks. A part of INITIAL_STATE that is missing changes nothing.
abbrev pub if_sent {ℓ} : {A : Type ℓ} → Option A → (Option A → Store → Store) → Store → Store
if_sent none set s = s
if_sent (some v) set s = set (some v) s

unfoldable pub run_callback : Callback → EventData → Store → Store
run_callback on_connect d s = set_is_connected true s
run_callback on_disconnect d s = set_is_connected false s
run_callback on_initial_state (whole ts tl) s = if_sent tl set_timeline (if_sent ts set_tables s)
run_callback on_tables_updated (tables ts) s = set_tables ts s
run_callback on_timeline_updated (timeline tl) s = set_timeline tl s
run_callback _ _ s = s

unfoldable pub run_callbacks : List Callback → EventData → Store → Store
run_callbacks [] d s = s
run_callbacks (c ∷ cs) d s = run_callbacks cs d (run_callback c d s)

abbrev pub global_listeners : Listeners → Listeners
global_listeners ls = on "TIMELINE_UPDATED" on_timeline_updated (
    on "TABLES_UPDATED" on_tables_updated (
      on "INITIAL_STATE" on_initial_state
        (on "disconnect" on_disconnect (on "connect" on_connect ls))))
