-- ===== src/Socket/Recovery.antt =====
-- A connection that is wanted comes back.
use gbc_smart_management.Base.{
  ℕ, ◌≡◌, ◌⊎◌, inl, inr, refl, arith, true, false, sym, subst, ◌∙◌, eq_iff, [], ◌∷◌, Option, none,
  some, String, str_eq, Bool-cases, Option-cases, ap,
}
use gbc_smart_management.Socket.{
  State, connecting, opened, closed, make_instance, connect, truthy, open_socket, connect_socket,
  connected, on_close, on_timer, schedule_reconnect, or_else, emit_local, same_token,
}
use gbc_smart_management.Socket.Steps.{with_ready, without}
use gbc_smart_management.Socket.Invariant.{Inv, with_ready-Inv}

-- The wrapper has a socket that is connecting or open, and the token.
pub record IsInUse (token : String) (s : State) : Type 0 where
  pub number : ℕ
  pub held : s.wrapper.socket ≡ some number
  pub alive : (s.ready number ≡ connecting) ⊎ (s.ready number ≡ opened)
  pub with_token : s.wrapper.token ≡ some token

truthy_full : (token : String) → str_eq token "" ≡ false → truthy (some token) ≡ some token
unfolding truthy
truthy_full token full = rw full refl

connect_opens :
    (token : String) (s : State)
    → str_eq token "" ≡ false
    → connect (some token) s ≡ open_socket token s
unfolding connect
connect_opens token s full =
    ap (λ o. elim (truthy (or_else o s.wrapper.token)) [ none ↦ s | some t ↦ open_socket t s ])
      (truthy_full token full)
    ∙ ap (λ o. elim o [ none ↦ s | some t ↦ open_socket t s ]) (truthy_full token full)

open_socket-IsInUse : (token : String) (s : State) → IsInUse token (open_socket token s)
unfolding open_socket
open_socket-IsInUse token s = record {
  number = s.next_socket;
  held = refl;
  alive = inl (ground arith);
  with_token = refl;
}

-- `connect` with a token opens the next socket.
connect-IsInUse :
    (token : String) (s : State) → str_eq token "" ≡ false → IsInUse token (connect (some token) s)
connect-IsInUse token s full =
    subst (IsInUse token) (sym (connect_opens token s full)) (open_socket-IsInUse token s)

same_token_eq : (o : Option String) (token : String) → same_token o token ≡ true → o ≡ some token
same_token_eq none token h = ground arith
same_token_eq (some t) token h = ground (arith, eq_iff t token)

connected-IsInUse :
    (token : String) (s : State)
    → same_token s.wrapper.token token ≡ true
    → connected s ≡ true
    → IsInUse token s
unfolding connected
connected-IsInUse token s same c = elim (Option-cases s.wrapper.socket) [
  | inl e ↦ ground arith
  | inr (i, e) ↦ record {
    number = i;
    held = e;
    alive = inr (ground arith);
    with_token = same_token_eq s.wrapper.token token same;
  }
]

-- With any token that is not empty, `connectSocket` leaves the wrapper with that token and with a socket
-- that is connecting or open, whatever the state before.
pub connect_socket-IsInUse :
    (token : String) (s : State) → str_eq token "" ≡ false → IsInUse token (connect_socket token s)
unfolding connect_socket
connect_socket-IsInUse token s full =
    let made = make_instance s in
    elim (Bool-cases (same_token made.wrapper.token token)) [
      | inl same ↦ elim (Bool-cases (connected made)) [
        | inl c ↦ simp (same, c) (connected-IsInUse token made same c)
        | inr c ↦ simp (same, c) (connect-IsInUse token made full)
      ]
      | inr other ↦ simp other (connect-IsInUse token _ full)
    ]

-- The timer opens the next socket, with the token that the wrapper has.
on_timer_opens :
    (token : String) (s : State)
    → str_eq token "" ≡ false
    → s.wrapper.token ≡ some token
    → (on_timer s).wrapper.socket ≡ some s.next_socket
      × ((on_timer s).ready s.next_socket ≡ connecting)
      × ((on_timer s).wrapper.token ≡ some token)
unfolding on_timer connect open_socket truthy
on_timer_opens token s full e = simp (e, truthy_full token full) (refl, ground arith, refl)

-- What the close event leaves where the connection is wanted: one timer.
on_close_plans :
    (s : State)
    → Inv s
    → s.wrapper.intentional_disconnect ≡ false
    → (t : ℕ) × ((on_close s).timers ≡ t ∷ [])
      × ((on_close s).next_socket ≡ s.next_socket)
      × ((on_close s).wrapper.token ≡ s.wrapper.token)
unfolding on_close schedule_reconnect emit_local
on_close_plans s v w = elim (Option-cases s.wrapper.reconnect_timeout) [
  | inl idle ↦ (s.next_timer, ground (arith, v.one_timer), ground arith, ground arith)
  | inr (t, planned) ↦ (t, ground (arith, v.one_timer), ground arith, ground arith)
]

-- Where the wrapper has a token that is not empty and is not disconnected on purpose: once a socket
-- closes, exactly one timer is set, and when it fires, the wrapper has a new socket, which is connecting
-- with that token.
pub closed_socket_is_replaced :
    (s : State) (token : String) (i : ℕ)
    → Inv s
    → str_eq token "" ≡ false
    → s.wrapper.token ≡ some token
    → s.wrapper.intentional_disconnect ≡ false
    → let dropped = on_close (with_ready s i closed) in
      (t : ℕ) × (dropped.timers ≡ t ∷ [])
      × ((on_timer (without dropped t)).wrapper.socket ≡ some s.next_socket)
      × ((on_timer (without dropped t)).ready s.next_socket ≡ connecting)
      × ((on_timer (without dropped t)).wrapper.token ≡ some token)
closed_socket_is_replaced s token i v full e w =
    let (t, planned, same, kept) =
      on_close_plans (with_ready s i closed) (with_ready-Inv v i closed) w in
    let dropped = on_close (with_ready s i closed) in
    let (held, alive, with_token) = on_timer_opens token (without dropped t) full (kept ∙ e) in
    (
      t,
      planned,
      held ∙ ap some same,
      sym (ap (on_timer (without dropped t)).ready same) ∙ alive,
      with_token,
    )
