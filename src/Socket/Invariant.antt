-- ===== src/Socket/Invariant.antt =====
-- The invariant of the connection: the delay stays within its bounds, and at most one reconnection is
-- ever planned.
use gbc_smart_management.Base.{
  ℕ, ◌≤◌, ◌≡◌, refl, arith, true, false, not, if_both, str_eq, ◌⊎◌, inl, inr, List, [], ◌∷◌, Option,
  none, some, String, filter_by, some_by, ◌==◌, if◌then◌else◌,
}
use gbc_smart_management.Store.{Store}
use gbc_smart_management.Listeners.{EventData, nothing, global_listeners}
use gbc_smart_management.Socket.{
  State, ReadyState, opened, closed, connected, same_token, Payload, unreadable, message, set_delay,
  new_wrapper, connect, open_socket, disconnect, schedule_reconnect, on_timer, on_open, on_close,
  on_message, emit_local, make_instance, connect_socket, disconnect_socket, initial_state,
}
use gbc_smart_management.Socket.Steps.{
  Step, BrowserStep, Reach, here, next, browser, asks, leaves, opens, closes, receives, fires,
  without, with_ready,
}

-- The timer that the wrapper knows is the only one of the browser.
abbrev pub OnlyTimer : Option ℕ → List ℕ → Type 0
OnlyTimer none ts = ts ≡ []
OnlyTimer (some t) ts = ts ≡ t ∷ []

pub record Inv (s : State) : Type 0 where
  pub delay_low : 1000 ≤ s.wrapper.reconnect_delay
  pub delay_high : s.wrapper.reconnect_delay ≤ 5000
  pub one_timer : OnlyTimer s.wrapper.reconnect_timeout s.timers
  pub registered : s.wrapper.listeners ≡ global_listeners []
  pub made : s.instance_made ≡ true

-- Before the first `connectSocket` there is nothing that could report an event.
pub record IsUnmade (s : State) : Type 0 where
  pub unmade : s.instance_made ≡ false
  pub no_timers : s.timers ≡ []
  pub all_closed : (i : ℕ) → s.ready i ≡ closed

module _ {s : State} (v : Inv s) where
  connect-Inv : (token : Option String) → Inv (connect token s)
  unfolding connect open_socket
  connect-Inv token = ground arith

  disconnect-Inv : Inv (disconnect s)
  unfolding disconnect filter_by
  disconnect-Inv = ground arith

  schedule_reconnect-Inv : Inv (schedule_reconnect s)
  unfolding schedule_reconnect
  schedule_reconnect-Inv = ground arith

  emit_local-Inv : (event : String) (d : EventData) → Inv (emit_local event d s)
  unfolding emit_local
  emit_local-Inv event d = record {
    delay_low = v.delay_low;
    delay_high = v.delay_high;
    one_timer = v.one_timer;
    registered = v.registered;
    made = v.made;
  }

-- A timer that fires is the one that the wrapper knows, and none is left.
timer_gone :
    (timeout : Option ℕ) (ts : List ℕ) (t : ℕ)
    → OnlyTimer timeout ts
    → some_by (λ u. u == t) ts ≡ true
    → filter_by (λ u. not (u == t)) ts ≡ []
unfolding some_by filter_by
timer_gone none ts t only h = ground arith
timer_gone (some u) ts t only h = ground arith

module _ {s : State} (v : Inv s) where
  set_delay-Inv : (d : ℕ) → 1000 ≤ d → d ≤ 5000 → Inv (set_delay d s)
  set_delay-Inv d h1 h2 = record {
    delay_low = h1;
    delay_high = h2;
    one_timer = v.one_timer;
    registered = v.registered;
    made = v.made;
  }

  pub with_ready-Inv : (i : ℕ) (r : ReadyState) → Inv (with_ready s i r)
  with_ready-Inv i r = record {
    delay_low = v.delay_low;
    delay_high = v.delay_high;
    one_timer = v.one_timer;
    registered = v.registered;
    made = v.made;
  }

  fired-Inv :
      (t : ℕ)
      → some_by (λ u. u == t) s.timers ≡ true
      → Inv (record (without s t) { wrapper = record (s.wrapper) { reconnect_timeout = none } })
  fired-Inv t h = record {
    delay_low = v.delay_low;
    delay_high = v.delay_high;
    one_timer = timer_gone s.wrapper.reconnect_timeout s.timers t v.one_timer h;
    registered = v.registered;
    made = v.made;
  }

  dropped-Inv : Inv (record s { wrapper = record (s.wrapper) { socket = none } })
  dropped-Inv = record {
    delay_low = v.delay_low;
    delay_high = v.delay_high;
    one_timer = v.one_timer;
    registered = v.registered;
    made = v.made;
  }

module _ {s : State} (v : Inv s) where
  on_timer-Inv : (t : ℕ) → some_by (λ u. u == t) s.timers ≡ true → Inv (on_timer (without s t))
  unfolding on_timer
  on_timer-Inv t h =
      let after = connect-Inv (fired-Inv v t h) none in
      set_delay-Inv after _ (omega (arith, after.delay_low, after.delay_high)) (omega arith)

  on_open-Inv : Inv (on_open s)
  unfolding on_open
  on_open-Inv = emit_local-Inv (set_delay-Inv v 1000 (omega arith) (omega arith)) "connect" nothing

  on_close-Inv : Inv (on_close s)
  unfolding on_close
  on_close-Inv =
      let dropped = dropped-Inv (emit_local-Inv v "disconnect" nothing) in
      if_both Inv (emit_local "disconnect" nothing s).wrapper.intentional_disconnect dropped
        (schedule_reconnect-Inv dropped)

  on_message-Inv : (m : Payload) → Inv (on_message m s)
  unfolding on_message
  on_message-Inv unreadable = v
  on_message-Inv (message event ts tl) = if_both Inv (str_eq event "") v (
      if_both Inv (str_eq event "INITIAL_STATE") (emit_local-Inv v "INITIAL_STATE" _) (
        if_both Inv (str_eq event "TABLES_UPDATED") (emit_local-Inv v "TABLES_UPDATED" _) (
          if_both Inv (str_eq event "TIMELINE_UPDATED") (emit_local-Inv v "TIMELINE_UPDATED" _)
            (emit_local-Inv v event _))))

  with_token-Inv :
      (token : String) → Inv (record s { wrapper = record (s.wrapper) { token = some token } })
  with_token-Inv token = record {
    delay_low = v.delay_low;
    delay_high = v.delay_high;
    one_timer = v.one_timer;
    registered = v.registered;
    made = v.made;
  }

  with_store-Inv : (store : Store) → Inv (record s { store = store })
  with_store-Inv store = record {
    delay_low = v.delay_low;
    delay_high = v.delay_high;
    one_timer = v.one_timer;
    registered = v.registered;
    made = v.made;
  }

pub BrowserStep-Inv : {s u : State} → Inv s → BrowserStep s u → Inv u
BrowserStep-Inv v (opens i h) = on_open-Inv (with_ready-Inv v i opened)
BrowserStep-Inv v (closes i h) = on_close-Inv (with_ready-Inv v i closed)
BrowserStep-Inv v (receives i m h) = on_message-Inv v m
BrowserStep-Inv v (fires t h) = on_timer-Inv v t h

make_instance_made : {s : State} → Inv s → make_instance s ≡ s
unfolding make_instance
make_instance_made v = rw v.made

make_instance-Inv : (s : State) → IsUnmade s → Inv (make_instance s)
unfolding make_instance new_wrapper
make_instance-Inv s n = rw n.unmade (record {
  delay_low = omega arith;
  delay_high = omega arith;
  one_timer = n.no_timers;
  registered = refl;
  made = refl;
})

abbrev after_make : String → State → State
after_make token made =
    if same_token made.wrapper.token token
    then (if connected made then made else connect (some token) made)
    else connect (some token)
        (disconnect (record made { wrapper = record (made.wrapper) { token = some token } }))

after_make-Inv : (token : String) (s : State) → Inv s → Inv (after_make token s)
after_make-Inv token s v =
    if_both Inv (same_token s.wrapper.token token)
      (if_both Inv (connected s) v (connect-Inv v (some token)))
      (connect-Inv (disconnect-Inv (with_token-Inv v token)) (some token))

pub disconnect_socket-Inv : (s : State) → Inv s → Inv (disconnect_socket s)
unfolding disconnect_socket
disconnect_socket-Inv s v = simp v.made (with_store-Inv (disconnect-Inv v) _)

-- The invariant, or nothing has been connected yet.
abbrev pub IsGood : State → Type 0
IsGood s = IsUnmade s ⊎ Inv s

Step-IsGood : {s u : State} → Step s u → IsGood s → IsGood u
unfolding connect_socket disconnect_socket some_by
Step-IsGood (browser b) (inr v) = inr (BrowserStep-Inv v b)
Step-IsGood (browser (opens i h)) (inl n) = cc (n.all_closed i)
Step-IsGood (browser (closes i h)) (inl n) = absurd (h (n.all_closed i))
Step-IsGood (browser (receives i m h)) (inl n) = cc (n.all_closed i)
Step-IsGood (browser (fires t h)) (inl n) = ground (arith, n.no_timers)
Step-IsGood {s} (asks token) (inl n) = inr (after_make-Inv token _ (make_instance-Inv s n))
Step-IsGood {s} (asks token) (inr v) = inr (after_make-Inv token _ (rw (make_instance_made v) v))
Step-IsGood leaves (inl n) = simp n.unmade (inl n)
Step-IsGood {s} leaves (inr v) = inr (disconnect_socket-Inv s v)

-- Whatever the page and the browser have done since the page was loaded, in any order: either
-- `connectSocket` was never called, or the delay before the next reconnection lies between 1000 and 5000
-- milliseconds, at most one reconnection is planned, it is the one that the wrapper can cancel, and the
-- five global listeners are registered once each.
pub Reach-IsGood : (store : Store) {s : State} → Reach (initial_state store) s → IsGood s
Reach-IsGood store here = inl (record { unmade = refl; no_timers = refl; all_closed = λ i. refl })
Reach-IsGood store (next r st) = Step-IsGood st (Reach-IsGood store r)
