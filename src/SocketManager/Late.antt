-- ===== src/SocketManager/Late.antt =====
-- When a token arrives: a sign-in connects, and a token asked for by a page that became visible connects
-- even after the sign-out.
use gbc_smart_management.Base.{
  suc, ◌≡◌, refl, arith, Bool, true, false, some, String, str_eq, ==_iff, get_elem?, erase_idx,
}
use gbc_smart_management.Socket.Recovery.{IsInUse, connect_socket-IsInUse}
use gbc_smart_management.SocketManager.{
  for_visible, Manager, ask, auth_effect, token_for, token_arrives, auth_changes, shows, gets,
  manager_step, becomes_visible, needs_socket,
}

-- After a sign-in with Firebase, once its token is there and not empty, and the user and `loading` have not
-- changed since: the wrapper has that token and a socket that is connecting or open, whatever the state
-- before.
pub sign_in-IsInUse :
    (s : Manager) (loading : Bool) (token : String)
    → str_eq token "" ≡ false
    → let asked = manager_step (auth_changes true loading true) s in
      IsInUse token (manager_step (gets 0 (some token)) asked).page
unfolding manager_step auth_effect ask token_arrives get_elem? erase_idx token_for
sign_in-IsInUse s loading token full =
    rw ((==_iff (suc s.effect) (suc s.effect)).1 refl) (connect_socket-IsInUse token s.page full)

becomes_visible_asks :
    (s : Manager)
    → s.signed_in ≡ true
    → needs_socket s.page ≡ true
    → becomes_visible true s ≡ ask for_visible s
unfolding becomes_visible
becomes_visible_asks s h n = ground arith

-- Where the page became visible without a connection, and the user signs out before the token is there:
-- the token, if it is not empty, is used all the same, so that the page is connecting or connected though
-- no one is signed in.
pub late_token-IsInUse :
    (s : Manager) (token : String)
    → s.signed_in ≡ true
    → needs_socket s.page ≡ true
    → str_eq token "" ≡ false
    → let asked = manager_step (shows true) s in
      let left = manager_step (auth_changes false false false) asked in
      let late = manager_step (gets 0 (some token)) left in
      (late.signed_in ≡ false) × IsInUse token late.page
unfolding manager_step auth_effect ask token_arrives get_elem? erase_idx token_for
late_token-IsInUse s token h n full =
    rw (becomes_visible_asks s h n) (refl, connect_socket-IsInUse token _ full)
