-- ===== src/Socket/Steps.antt =====
-- What can happen next: an event of the browser on one of its sockets or timers, or a call by the
-- page (components/SocketManager.jsx).
use gbc_smart_management.Base.{ℕ, ◌≡◌, ◌≢◌, true, not, some_by, filter_by, ◌==◌, String}
use gbc_smart_management.Socket.{
  State, ReadyState, connecting, opened, closed, Payload, update, on_open, on_close, on_message,
  on_timer, connect_socket, disconnect_socket,
}

abbrev pub with_ready : State → ℕ → ReadyState → State
with_ready s i r = record s { ready = update s.ready i r }

abbrev pub without : State → ℕ → State
without s t = record s { timers = filter_by (λ u. not (u == t)) s.timers }

-- The browser's own steps. A socket opens once, closes once, and brings messages while it is open.
pub data BrowserStep (s : State) : State → Type 0 where
  opens : (i : ℕ) → s.ready i ≡ connecting → BrowserStep s (on_open (with_ready s i opened))
  closes : (i : ℕ) → s.ready i ≢ closed → BrowserStep s (on_close (with_ready s i closed))
  receives : (i : ℕ) (m : Payload) → s.ready i ≡ opened → BrowserStep s (on_message m s)
  fires : (t : ℕ) → some_by (λ u. u == t) s.timers ≡ true → BrowserStep s (on_timer (without s t))

pub data Step (s : State) : State → Type 0 where
  browser : {u : State} → BrowserStep s u → Step s u
  asks : (token : String) → Step s (connect_socket token s)
  leaves : Step s (disconnect_socket s)

pub data Reach (s : State) : State → Type 0 where
  here : Reach s s
  next : {t u : State} → Reach s t → Step t u → Reach s u

-- A run of browser steps alone.
pub data BrowserRun (s : State) : State → Type 0 where
  stay : BrowserRun s s
  then_step : {t u : State} → BrowserRun s t → BrowserStep t u → BrowserRun s u
