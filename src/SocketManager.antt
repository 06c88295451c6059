-- ===== src/SocketManager.antt =====
-- frontend/src/components/SocketManager.jsx: when the page asks for a connection to the server, as the
-- user, the visibility of the page and Firebase's token change. A request for a token is answered
-- later; Firebase is a parameter: what it knows and answers stands in the events.
pub mod SignedOut
pub mod Late
use gbc_smart_management.Base.{
  ℕ, zero, suc, ◌==◌, Bool, true, false, not, ◌&&◌, if◌then◌else◌, List, [], ◌∷◌, Option, none,
  some, String, get_elem?, erase_idx,
}
use gbc_smart_management.Socket.{State, connected, same_token, connect_socket, disconnect_socket}
use gbc_smart_management.Socket.Steps.{BrowserStep}

-- What the answer of a request for a token is for: the effect with a number, a page that became
-- visible, or a token that changed.
pub data TokenRequest : Type 0 where
  for_effect : ℕ → TokenRequest
  for_visible : TokenRequest
  for_renewal : TokenRequest

-- The user of the context, and the number of the effect that is mounted.
pub record Manager : Type 0 where
  pub signed_in : Bool
  pub loading : Bool
  pub effect : ℕ
  pub requests : List TokenRequest
  pub page : State

unfoldable pub ask : TokenRequest → Manager → Manager
ask r s = record s { requests = r ∷ s.requests }

-- The first effect, run again because `user` or `loading` changed: the clean-up of the last one, then
-- `setupSocket`. `current` tells whether `auth.currentUser` is there.
unfoldable pub auth_effect : Bool → Bool → Bool → Manager → Manager
auth_effect user loading current s =
    let mounted : Manager = record s {
      signed_in = user;
      loading = loading;
      effect = suc s.effect;
    } in
    if user && current
    then ask (for_effect mounted.effect) mounted
    else if not user && not loading
    then record mounted { page = disconnect_socket s.page }
    else mounted

-- `!socket || !socket.connected`
unfoldable pub needs_socket : State → Bool
needs_socket page = if page.instance_made then not (connected page) else true

-- `handleVisibilityChange`, once the page is visible.
unfoldable pub becomes_visible : Bool → Manager → Manager
becomes_visible current s =
    if s.signed_in && current then (if needs_socket s.page then ask for_visible s else s) else s

-- The listener of `onIdTokenChanged`, with whether there is a user.
unfoldable pub id_token_changed : Bool → Manager → Manager
id_token_changed current s = if current then ask for_renewal s else s

-- The rest of each, once the token is there; an error is only logged.
unfoldable pub token_for : TokenRequest → Option String → Manager → Manager
token_for r none s = s
token_for (for_effect k) (some t) s =
    if k == s.effect then record s { page = connect_socket t s.page } else s
token_for for_visible (some t) s = record s { page = connect_socket t s.page }
token_for for_renewal (some t) s =
    if needs_socket s.page
    then s
    else if same_token s.page.wrapper.token t
    then s
    else record s { page = connect_socket t s.page }

-- A token arrives for the request at a place of the list.
unfoldable pub token_arrives : ℕ → Option String → Manager → Manager
token_arrives n reply s = elim (get_elem? s.requests n) [
  | none ↦ s
  | some r ↦ token_for r reply (record s { requests = erase_idx s.requests n })
]

-- What happens to the component.
pub data ManagerEvent : Type 0 where
  auth_changes : Bool → Bool → Bool → ManagerEvent
  shows : Bool → ManagerEvent
  renews : Bool → ManagerEvent
  gets : ℕ → Option String → ManagerEvent

unfoldable pub manager_step : ManagerEvent → Manager → Manager
manager_step (auth_changes user loading current) s = auth_effect user loading current s
manager_step (shows current) s = becomes_visible current s
manager_step (renews current) s = id_token_changed current s
manager_step (gets n reply) s = token_arrives n reply s

-- A run: events of the component, of a given kind, and steps of the browser on its sockets and timers.
pub data ManagerRun (P : ManagerEvent → Type 0) (s : Manager) : Manager → Type 0 where
  halt : ManagerRun P s s
  then_event :
      {u : Manager} (e : ManagerEvent) → ManagerRun P s u → P e → ManagerRun P s (manager_step e u)
  then_browser :
      {u : Manager} {page : State}
      → ManagerRun P s u
      → BrowserStep u.page page
      → ManagerRun P s (record u { page = page })
