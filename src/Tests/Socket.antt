-- ===== src/Tests/Socket.antt =====
-- services/websocket.js
use gbc_smart_management.Base.{
  ◌≡◌, refl, arith, [], none, some, eq_iff, true, false, ◌∷◌, ℕ, filter_by,
}
use gbc_smart_management.Store.{initial_store, set_is_connected}
use gbc_smart_management.Listeners.{callbacks, on, run_callbacks, run_callback}
use gbc_smart_management.Socket.{
  State, connecting, opened, closed, message, connect_socket, make_instance, new_wrapper, connect,
  truthy, open_socket, disconnect, connected, on_open, on_close, on_timer, on_message,
  disconnect_socket, emit_local, schedule_reconnect, initial_state,
}
use gbc_smart_management.Socket.Steps.{here, next, asks, browser, opens, with_ready, without, stay}
use gbc_smart_management.Socket.Invariant
use gbc_smart_management.Socket.Invariant.{IsGood, Inv}
use gbc_smart_management.Socket.Quiet
use gbc_smart_management.Socket.Quiet.{IsQuiet}
use gbc_smart_management.Socket.Messages
use gbc_smart_management.Socket.Messages.{received}
use gbc_smart_management.Socket.Stale
use gbc_smart_management.Socket.Recovery
use gbc_smart_management.Socket.Recovery.{IsInUse}
use gbc_smart_management.SocketManager.{
  Manager, manager_step, auth_changes, shows, gets, halt, then_event, needs_socket,
}
use gbc_smart_management.SocketManager.SignedOut
use gbc_smart_management.SocketManager.Late

abbrev online : State
online = on_open (with_ready (connect_socket "t" (initial_state initial_store)) 0 opened)

online_store : online.store.is_connected ≡ true
unfolding on_open connect_socket make_instance new_wrapper connect truthy open_socket disconnect
    connected emit_local callbacks on run_callbacks run_callback initial_store set_is_connected
    filter_by
online_store = refl

online_delay_after_failure :
    (on_timer (on_close (with_ready online 0 closed))).wrapper.reconnect_delay ≡ 1500
unfolding online_store on_timer on_close schedule_reconnect
online_delay_after_failure = refl

Reach-IsGood_example : IsGood online
Reach-IsGood_example =
    Invariant.Reach-IsGood initial_store
      (next (next here (asks "t")) (browser (opens 0 connecting_now)))
  where
    connecting_now : (connect_socket "t" (initial_state initial_store)).ready 0 ≡ connecting
    connecting_now =
        unfold connect_socket make_instance new_wrapper connect truthy open_socket disconnect
          connected filter_by in
        refl

online-Inv : Inv online
unfolding online_store on
online-Inv = record {
  delay_low = omega arith;
  delay_high = omega arith;
  one_timer = refl;
  registered = refl;
  made = refl;
}

-- The first socket is the only one that is not closed.
online-KnowsAll : Quiet.KnowsAll online
unfolding online_store
online-KnowsAll i = ground arith

disconnect_socket_stays-IsQuiet_example : IsQuiet (disconnect_socket online)
disconnect_socket_stays-IsQuiet_example =
    Quiet.disconnect_socket_stays-IsQuiet online online-Inv online-KnowsAll stay

on_message-received_example :
    on_message (message "TABLES_UPDATED" (some []) none) online
    ≡ record online { store = received (message "TABLES_UPDATED" (some []) none) online.store }
unfolding online_store on
on_message-received_example =
    Messages.on_message-received (message "TABLES_UPDATED" (some []) none) online refl

stale_close_drops_live_example :
    let u = connect_socket "u" online in
    let w = on_close (with_ready u 0 closed) in
    (u.wrapper.socket ≡ some online.next_socket)
    × (w.wrapper.socket ≡ none)
    × (w.wrapper.reconnect_timeout ≡ some u.next_timer)
    × (w.ready online.next_socket ≡ connecting)
    × ((disconnect_socket w).ready online.next_socket ≡ connecting)
unfolding online_store
stale_close_drops_live_example =
    Stale.stale_close_drops_live online 0 "t" "u" refl refl (ground (arith, eq_iff "t" "u"))
      (ground (arith, eq_iff "u" "")) refl refl (omega arith)

closed_socket_is_replaced_example :
    let dropped = on_close (with_ready online 0 closed) in
    (t : ℕ) × (dropped.timers ≡ t ∷ [])
    × ((on_timer (without dropped t)).wrapper.socket ≡ some online.next_socket)
    × ((on_timer (without dropped t)).ready online.next_socket ≡ connecting)
    × ((on_timer (without dropped t)).wrapper.token ≡ some "t")
unfolding online_store
closed_socket_is_replaced_example =
    Recovery.closed_socket_is_replaced online "t" 0 online-Inv refl refl refl

abbrev signed_in : Manager
signed_in = record { signed_in = true; loading = false; effect = 1; requests = []; page = online }

-- After the sign-out, the token changes once more.
sign_out_stays-IsQuiet_example :
    IsQuiet
      (manager_step
        (gets 0 (some "u"))
        (manager_step (auth_changes false false true) signed_in)).page
sign_out_stays-IsQuiet_example =
    SignedOut.sign_out_stays-IsQuiet signed_in true online-Inv online-KnowsAll tt
      (then_event (gets 0 (some "u")) halt tt)

abbrev fresh : Manager
fresh = record {
  signed_in = false;
  loading = true;
  effect = 0;
  requests = [];
  page = initial_state initial_store;
}

sign_in-IsInUse_example :
    IsInUse "t"
      (manager_step (gets 0 (some "t")) (manager_step (auth_changes true false true) fresh)).page
sign_in-IsInUse_example = Late.sign_in-IsInUse fresh false "t" refl

abbrev waiting : Manager
waiting = record fresh { signed_in = true }

waiting_needs_socket : needs_socket waiting.page ≡ true
unfolding needs_socket
waiting_needs_socket = refl

late_token-IsInUse_example :
    let asked = manager_step (shows true) waiting in
    let left = manager_step (auth_changes false false false) asked in
    let late = manager_step (gets 0 (some "t")) left in
    (late.signed_in ≡ false) × IsInUse "t" late.page
late_token-IsInUse_example = Late.late_token-IsInUse waiting "t" refl waiting_needs_socket refl
