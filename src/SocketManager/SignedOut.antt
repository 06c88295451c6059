-- ===== src/SocketManager/SignedOut.antt =====
-- After a sign-out the page stays without a connection.
use gbc_smart_management.Base.{
  ℕ, suc, ◌<◌, ◌≡◌, refl, arith, Bool, true, false, List, Option, none, some, String, All, All-imp,
  All-erase_idx, All-get_elem?, get_elem?, erase_idx, subst, sym, inl, inr, Option-cases, ==_false,
}
use gbc_smart_management.Socket.{State, connected}
use gbc_smart_management.Socket.Invariant.{Inv, BrowserStep-Inv, disconnect_socket-Inv}
use gbc_smart_management.Socket.Quiet.{
  KnowsAll, IsQuiet, disconnect_socket-IsQuiet, BrowserStep-IsQuiet,
}
use gbc_smart_management.SocketManager.{
  TokenRequest, for_effect, for_visible, for_renewal, Manager, ask, auth_effect, needs_socket,
  becomes_visible, id_token_changed, token_for, token_arrives, ManagerEvent, auth_changes, shows,
  renews, gets, manager_step, ManagerRun, halt, then_event, then_browser,
}

-- The answer to a request is not used where the effect with the number `k` or a later one is mounted:
-- requests of `handleVisibilityChange` are always used.
abbrev pub IsBelow : ℕ → TokenRequest → Type 0
IsBelow k (for_effect j) = j < k
IsBelow k for_visible = ⊥
IsBelow k for_renewal = Unit

-- No one signs in.
abbrev pub KeepsOut : ManagerEvent → Type 0
KeepsOut (auth_changes user loading current) = user ≡ false
KeepsOut (shows current) = Unit
KeepsOut (renews current) = Unit
KeepsOut (gets n reply) = Unit

pub record IsSignedOut (s : Manager) : Type 0 where
  pub out : s.signed_in ≡ false
  pub unused : All (IsBelow s.effect) s.requests
  pub sound : Inv s.page
  pub quiet : IsQuiet s.page

IsBelow-suc : (k : ℕ) (r : TokenRequest) → IsBelow k r → IsBelow (suc k) r
IsBelow-suc k (for_effect j) h = omega (arith, h)
IsBelow-suc k for_visible h = h
IsBelow-suc k for_renewal h = h

quiet_needs_socket : (page : State) → Inv page → IsQuiet page → needs_socket page ≡ true
unfolding needs_socket connected
quiet_needs_socket page v q = rw v.made (rw q.no_socket refl)

-- An answer changes nothing then, whatever its request was for.
token_for_unused :
    (r : TokenRequest) (reply : Option String) (s : Manager)
    → IsSignedOut s
    → IsBelow s.effect r
    → token_for r reply s ≡ s
unfolding token_for
token_for_unused r none s q below = refl
token_for_unused (for_effect j) (some t) s q below =
    rw (==_false j s.effect (omega (arith, below))) refl
token_for_unused for_visible (some t) s q below = absurd below
token_for_unused for_renewal (some t) s q below =
    rw (quiet_needs_socket s.page q.sound q.quiet) refl

module _ {s : Manager} (q : IsSignedOut s) where
  with_requests-IsSignedOut :
      (rs : List TokenRequest)
      → All (IsBelow s.effect) rs
      → IsSignedOut (record s { requests = rs })
  with_requests-IsSignedOut rs h = record {
    out = q.out;
    unused = h;
    sound = q.sound;
    quiet = q.quiet;
  }

  token_arrives-IsSignedOut :
      (n : ℕ) (reply : Option String) → IsSignedOut (token_arrives n reply s)
  unfolding token_arrives
  token_arrives-IsSignedOut n reply = elim (Option-cases (get_elem? s.requests n)) [
    | inl e ↦ rw (e, token_arrives) q
    | inr (r, e) ↦
        rw (e, token_arrives)
          (let rest =
              with_requests-IsSignedOut (erase_idx s.requests n)
                (All-erase_idx _ s.requests n q.unused) in
            subst IsSignedOut
              (sym (token_for_unused r reply _ rest (All-get_elem? _ s.requests n r q.unused e)))
              rest)
  ]

  auth_effect-IsSignedOut :
      (loading current : Bool) → IsSignedOut (auth_effect false loading current s)
  unfolding auth_effect
  auth_effect-IsSignedOut true current = record {
    out = refl;
    unused = All-imp _ _ (IsBelow-suc s.effect) s.requests q.unused;
    sound = q.sound;
    quiet = q.quiet;
  }
  auth_effect-IsSignedOut false current = record {
    out = refl;
    unused = All-imp _ _ (IsBelow-suc s.effect) s.requests q.unused;
    sound = disconnect_socket-Inv s.page q.sound;
    quiet = disconnect_socket-IsQuiet s.page q.sound (λ i. inl (q.quiet.over i));
  }

manager_step-IsSignedOut :
    (e : ManagerEvent) {s : Manager} → KeepsOut e → IsSignedOut s → IsSignedOut (manager_step e s)
unfolding manager_step becomes_visible id_token_changed ask
manager_step-IsSignedOut (auth_changes user loading current) {s} h q =
    rw h (auth_effect-IsSignedOut q loading current)
manager_step-IsSignedOut (shows current) h q = simp q.out q
manager_step-IsSignedOut (renews true) {s} h q = with_requests-IsSignedOut q _ (tt, q.unused)
manager_step-IsSignedOut (renews false) {s} h q = q
manager_step-IsSignedOut (gets n reply) h q = token_arrives-IsSignedOut q n reply

sign_out-IsSignedOut :
    (s : Manager) (current : Bool)
    → Inv s.page
    → KnowsAll s.page
    → All (IsBelow (suc s.effect)) s.requests
    → IsSignedOut (manager_step (auth_changes false false current) s)
unfolding manager_step auth_effect
sign_out-IsSignedOut s current v k below = record {
  out = refl;
  unused = below;
  sound = disconnect_socket-Inv s.page v;
  quiet = disconnect_socket-IsQuiet s.page v k;
}

run-IsSignedOut : {s u : Manager} → IsSignedOut s → ManagerRun KeepsOut s u → IsSignedOut u
run-IsSignedOut q halt = q
run-IsSignedOut q (then_event e r h) = manager_step-IsSignedOut e h (run-IsSignedOut q r)
run-IsSignedOut q (then_browser r b) =
    let p = run-IsSignedOut q r in
    record {
      out = p.out;
      unused = p.unused;
      sound = BrowserStep-Inv p.sound b;
      quiet = BrowserStep-IsQuiet p.quiet b;
    }

-- From a sign-out on, in a state in which every socket but the wrapper's is closing or closed and no
-- request of `handleVisibilityChange` for a token is under way: as long as no one signs in, whatever
-- happens to the page, Firebase's token and the browser's sockets and timers, and whichever requests for
-- a token are answered, no socket is in use, no reconnection is planned, and the store says that the
-- page is not connected.
pub sign_out_stays-IsQuiet :
    (s : Manager) (current : Bool) {u : Manager}
    → Inv s.page
    → KnowsAll s.page
    → All (IsBelow (suc s.effect)) s.requests
    → ManagerRun KeepsOut (manager_step (auth_changes false false current) s) u
    → IsQuiet u.page
sign_out_stays-IsQuiet s current v k below run =
    (run-IsSignedOut (sign_out-IsSignedOut s current v k below) run).quiet
