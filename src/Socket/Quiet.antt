-- ===== src/Socket/Quiet.antt =====
-- `disconnectSocket` ends the connection for good, as long as the wrapper knows every socket that is
-- connecting or open.
use gbc_smart_management.Base.{
  ℕ, ◌≡◌, ◌⊎◌, refl, ap, arith, true, false, [], none, some, filter_by, some_by,
}
use gbc_smart_management.Store.{set_is_connected}
use gbc_smart_management.Listeners.{
  global_listeners, callbacks, on, run_callbacks, run_callback, nothing,
}
use gbc_smart_management.Socket.{
  State, ReadyState, closing, closed, disconnect, disconnect_socket, on_close, emit_local,
}
use gbc_smart_management.Socket.Steps.{
  BrowserStep, opens, closes, receives, fires, BrowserRun, stay, then_step, with_ready,
}
use gbc_smart_management.Socket.Invariant.{Inv}

abbrev pub IsOver : ReadyState → Type 0
IsOver r = (r ≡ closing) ⊎ (r ≡ closed)

-- Every socket but the wrapper's is closing or closed.
abbrev pub KnowsAll : State → Type 0
KnowsAll s = (i : ℕ) → IsOver (s.ready i) ⊎ (s.wrapper.socket ≡ some i)

-- No socket is in use, no reconnection is planned, and the page says so.
pub record IsQuiet (s : State) : Type 0 where
  pub over : (i : ℕ) → IsOver (s.ready i)
  pub no_socket : s.wrapper.socket ≡ none
  pub no_timeout : s.wrapper.reconnect_timeout ≡ none
  pub no_timers : s.timers ≡ []
  pub intended : s.wrapper.intentional_disconnect ≡ true
  pub listening : s.wrapper.listeners ≡ global_listeners []
  pub shown : s.store.is_connected ≡ false

disconnect-IsOver : (s : State) → KnowsAll s → (i : ℕ) → IsOver ((disconnect s).ready i)
unfolding disconnect
disconnect-IsOver s k i = ground (arith, k i)

disconnect_timers : (s : State) → Inv s → (disconnect s).timers ≡ []
unfolding disconnect filter_by
disconnect_timers s v = ground (arith, v.one_timer)

pub disconnect_socket-IsQuiet : (s : State) → Inv s → KnowsAll s → IsQuiet (disconnect_socket s)
unfolding disconnect_socket disconnect set_is_connected
disconnect_socket-IsQuiet s v k = simp v.made (record {
  over = disconnect-IsOver s k;
  no_socket = refl;
  no_timeout = refl;
  no_timers = disconnect_timers s v;
  intended = refl;
  listening = v.registered;
  shown = refl;
})

shows_disconnected :
    (s : State)
    → s.wrapper.listeners ≡ global_listeners []
    → (run_callbacks (callbacks "disconnect" s.wrapper.listeners) nothing s.store).is_connected
      ≡ false
unfolding callbacks on run_callbacks run_callback set_is_connected
shows_disconnected s e =
    ap (λ ls. (run_callbacks (callbacks "disconnect" ls) nothing s.store).is_connected) e

closes-IsQuiet : (s : State) (i : ℕ) → IsQuiet s → IsQuiet (on_close (with_ready s i closed))
unfolding on_close emit_local
closes-IsQuiet s i q = simp q.intended (record {
  over = λ j. ground (arith, q.over j);
  no_socket = refl;
  no_timeout = q.no_timeout;
  no_timers = q.no_timers;
  intended = refl;
  listening = q.listening;
  shown = shows_disconnected s q.listening;
})

pub BrowserStep-IsQuiet : {s u : State} → IsQuiet s → BrowserStep s u → IsQuiet u
unfolding some_by
BrowserStep-IsQuiet q (opens i h) = ground (arith, q.over i)
BrowserStep-IsQuiet {s} q (closes i h) = closes-IsQuiet s i q
BrowserStep-IsQuiet q (receives i m h) = ground (arith, q.over i)
BrowserStep-IsQuiet q (fires t h) = ground (arith, q.no_timers)

-- After `disconnectSocket`, in a state of the invariant in which every socket but the wrapper's is
-- closing or closed, whatever events the browser still brings: no socket is in use, none of the sockets
-- is connecting or open, no timer runs, and the store says that the page is not connected.
pub disconnect_socket_stays-IsQuiet :
    (s : State) {u : State} → Inv s → KnowsAll s → BrowserRun (disconnect_socket s) u → IsQuiet u
disconnect_socket_stays-IsQuiet s v k stay = disconnect_socket-IsQuiet s v k
disconnect_socket_stays-IsQuiet s v k (then_step r b) =
    BrowserStep-IsQuiet (disconnect_socket_stays-IsQuiet s v k r) b
