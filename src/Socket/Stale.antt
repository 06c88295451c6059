-- ===== src/Socket/Stale.antt =====
-- A new token while the old socket is open (the hourly refresh of components/SocketManager.jsx).
use gbc_smart_management.Base.{ℕ, ◌≡◌, ◌≢◌, ◌∙◌, arith, true, false, none, some, String, eq_iff}
use gbc_smart_management.Socket.{
  State, connecting, opened, closing, closed, make_instance, connect, truthy, open_socket,
  disconnect, connect_socket, on_close, schedule_reconnect, emit_local, disconnect_socket,
}
use gbc_smart_management.Socket.Steps.{with_ready}

-- The state behind the token change, seen by its parts.
record Changed (s u : State) (old : ℕ) (token : String) : Type 0 where
  socket : u.wrapper.socket ≡ some s.next_socket
  token_kept : u.wrapper.token ≡ some token
  wanted : u.wrapper.intentional_disconnect ≡ false
  no_timer : u.wrapper.reconnect_timeout ≡ none
  old_closing : u.ready old ≡ closing
  new_connecting : u.ready s.next_socket ≡ connecting

connect_socket-Changed :
    (s : State) (old : ℕ) (before token : String)
    → s.instance_made ≡ true
    → s.wrapper.token ≡ some before
    → before ≢ token
    → token ≢ ""
    → s.wrapper.socket ≡ some old
    → s.ready old ≡ opened
    → old ≢ s.next_socket
    → Changed s (connect_socket token s) old token
unfolding connect_socket make_instance connect truthy open_socket disconnect
connect_socket-Changed s old before token made e1 ne1 ne2 e2 e3 ne3 = record {
  socket = ground (arith, eq_iff before token, eq_iff token "");
  token_kept = ground (arith, eq_iff before token, eq_iff token "");
  wanted = ground (arith, eq_iff before token, eq_iff token "");
  no_timer = ground (arith, eq_iff before token, eq_iff token "");
  old_closing = ground (arith, eq_iff before token, eq_iff token "");
  new_connecting = ground (arith, eq_iff before token, eq_iff token "");
}

-- What `onclose` of a socket that was given up leaves, where the connection is wanted.
on_close_drops :
    (u : State)
    → u.wrapper.intentional_disconnect ≡ false
    → u.wrapper.reconnect_timeout ≡ none
    → ((on_close u).wrapper.socket ≡ none)
      × ((on_close u).wrapper.reconnect_timeout ≡ some u.next_timer)
      × ((i : ℕ) → (on_close u).ready i ≡ u.ready i)
      × ((on_close u).instance_made ≡ u.instance_made)
unfolding on_close schedule_reconnect emit_local
on_close_drops u e1 e2 = (ground arith, ground arith, λ i. ground arith, ground arith)

ready_kept :
    (u : State) (i j : ℕ)
    → i ≢ j
    → u.ready j ≡ connecting
    → (with_ready u i closed).ready j ≡ connecting
ready_kept u i j ne e = ground arith

disconnect_keeps :
    (w : State) (i : ℕ)
    → w.wrapper.socket ≡ none
    → w.ready i ≡ connecting
    → (disconnect_socket w).ready i ≡ connecting
unfolding disconnect_socket disconnect
disconnect_keeps w i e1 e2 = ground arith

-- Let the wrapper have an open socket, and let `connectSocket` be called with another token that is
-- not empty. Then the close event of the old socket, which comes later, drops the new socket from the
-- wrapper while the browser is still connecting it, and plans a reconnection to open a third one; and
-- `disconnectSocket` then leaves the new socket connecting.
pub stale_close_drops_live :
    (s : State) (old : ℕ) (before token : String)
    → s.instance_made ≡ true
    → s.wrapper.token ≡ some before
    → before ≢ token
    → token ≢ ""
    → s.wrapper.socket ≡ some old
    → s.ready old ≡ opened
    → old ≢ s.next_socket
    → let u = connect_socket token s in
      let w = on_close (with_ready u old closed) in
      (u.wrapper.socket ≡ some s.next_socket)
      × (w.wrapper.socket ≡ none)
      × (w.wrapper.reconnect_timeout ≡ some u.next_timer)
      × (w.ready s.next_socket ≡ connecting)
      × ((disconnect_socket w).ready s.next_socket ≡ connecting)
stale_close_drops_live s old before token made e1 ne1 ne2 e2 e3 ne3 =
    let c = connect_socket-Changed s old before token made e1 ne1 ne2 e2 e3 ne3 in
    let (drop, plan, same, still) =
      on_close_drops (with_ready (connect_socket token s) old closed) c.wanted c.no_timer in
    let kept =
      same s.next_socket
      ∙ ready_kept (connect_socket token s) old s.next_socket ne3 c.new_connecting in
    (c.socket, drop, plan, kept, disconnect_keeps _ s.next_socket drop kept)
