-- ===== src/Socket/Messages.antt =====
-- What a message of the server does to the store.
use gbc_smart_management.Base.{
  ◌≡◌, refl, sym, ap, ◌∙◌, subst, arith, Bool-cases, inl, inr, true, false, List, [], Option,
  String, str_eq, eq_iff, if◌then◌else◌,
}
use gbc_smart_management.Store.{
  Store, TableState, RawBooking, set_tables, set_timeline, set_is_connected,
}
use gbc_smart_management.Listeners.{
  EventData, whole, global_listeners, callbacks, on, run_callbacks, run_callback, if_sent,
}
use gbc_smart_management.Socket.{State, Payload, unreadable, message, on_message, emit_local}

-- The store after a message, without listeners: two events replace a part, one replaces what it
-- carries, and the names of the two local events are obeyed too.
unfoldable pub received : Payload → Store → Store
received unreadable s = s
received (message event ts tl) s =
    if str_eq event "INITIAL_STATE"
    then if_sent tl set_timeline (if_sent ts set_tables s)
    else if str_eq event "TABLES_UPDATED"
    then set_tables ts s
    else if str_eq event "TIMELINE_UPDATED"
    then set_timeline tl s
    else if str_eq event "connect"
    then set_is_connected true s
    else if str_eq event "disconnect"
    then set_is_connected false s
    else s

emit_local-global :
    (event : String) (d : EventData) (s : State)
    → s.wrapper.listeners ≡ global_listeners []
    → emit_local event d s
      ≡ record s { store = run_callbacks (callbacks event (global_listeners [])) d s.store }
unfolding emit_local
emit_local-global event d s e =
    ap (λ ls. record s { store = run_callbacks (callbacks event ls) d s.store }) e

str_eq_comm : (a b : String) → str_eq a b ≡ str_eq b a
str_eq_comm a b = ground (arith, eq_iff a b, eq_iff b a)

-- An event that is none of the five has no callbacks.
callbacks_other :
    (event : String)
    → str_eq event "INITIAL_STATE" ≡ false
    → str_eq event "TABLES_UPDATED" ≡ false
    → str_eq event "TIMELINE_UPDATED" ≡ false
    → str_eq event "connect" ≡ false
    → str_eq event "disconnect" ≡ false
    → callbacks event (global_listeners []) ≡ []
unfolding callbacks on
callbacks_other event e1 e2 e3 e4 e5 = rw (
  str_eq_comm "connect" event,
  e4,
  str_eq_comm "disconnect" event,
  e5,
  str_eq_comm "INITIAL_STATE" event,
  e1,
  str_eq_comm "TABLES_UPDATED" event,
  e2,
  str_eq_comm "TIMELINE_UPDATED" event,
  e3,
)

module _ (ts : Option (List TableState)) (tl : Option (List RawBooking)) (s : State)
    (e : s.wrapper.listeners ≡ global_listeners []) where
  abbrev Does : String → Type 0
  Does event =
      on_message (message event ts tl) s
      ≡ record s { store = received (message event ts tl) s.store }

  -- The event is one of the six texts that the code knows.
  at_event : (event name : String) → str_eq event name ≡ true → Does name → Does event
  at_event event name h d = subst Does (sym ((eq_iff event name).0 h)) d

  Does-other :
      (event : String)
      → str_eq event "" ≡ false
      → str_eq event "INITIAL_STATE" ≡ false
      → str_eq event "TABLES_UPDATED" ≡ false
      → str_eq event "TIMELINE_UPDATED" ≡ false
      → str_eq event "connect" ≡ false
      → str_eq event "disconnect" ≡ false
      → Does event
  unfolding on_message received run_callbacks
  Does-other event e0 e1 e2 e3 e4 e5 =
      rw (e0, e1, e2, e3, e4, e5)
        (emit_local-global event (whole ts tl) s e
          ∙ ap (λ cs. record s { store = run_callbacks cs (whole ts tl) s.store })
              (callbacks_other event e1 e2 e3 e4 e5))

  does : (event : String) → Does event
  unfolding on_message received callbacks on run_callbacks run_callback
  does event = elim (Bool-cases (str_eq event "")) [
    | inl h ↦ at_event event "" h refl
    | inr h0 ↦ elim (Bool-cases (str_eq event "INITIAL_STATE")) [
      | inl h ↦ at_event event "INITIAL_STATE" h (emit_local-global _ _ s e)
      | inr h1 ↦ elim (Bool-cases (str_eq event "TABLES_UPDATED")) [
        | inl h ↦ at_event event "TABLES_UPDATED" h (emit_local-global _ _ s e)
        | inr h2 ↦ elim (Bool-cases (str_eq event "TIMELINE_UPDATED")) [
          | inl h ↦ at_event event "TIMELINE_UPDATED" h (emit_local-global _ _ s e)
          | inr h3 ↦ elim (Bool-cases (str_eq event "connect")) [
            | inl h ↦ at_event event "connect" h (emit_local-global _ _ s e)
            | inr h4 ↦ elim (Bool-cases (str_eq event "disconnect")) [
              | inl h ↦ at_event event "disconnect" h (emit_local-global _ _ s e)
              | inr h5 ↦ Does-other event h0 h1 h2 h3 h4 h5
            ]
          ]
        ]
      ]
    ]
  ]

-- With the five global listeners registered, a message changes the store as `received` says, and
-- nothing but the store.
pub on_message-received :
    (m : Payload) (s : State)
    → s.wrapper.listeners ≡ global_listeners []
    → on_message m s ≡ record s { store = received m s.store }
unfolding on_message received
on_message-received unreadable s e = refl
on_message-received (message event ts tl) s e = does ts tl s e event
