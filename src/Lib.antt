-- ===== src/Lib.antt =====
-- GBC Smart Management: the booking system of a snooker club, its frontend and the core of its server.
--
-- The booking page draws the bookings of each table on a timeline, offers the free times between
-- them, and has a form to create or edit a booking. The server pushes the state of the tables over a
-- WebSocket into a store that the pages share. Paths are from the root of the repository.
--
--   Base: the names the modules share; lists, integers and texts of the code's language (Base/).
--   Calendar: Date's hours and minutes at a fixed offset of the zone.
--   Timeline: frontend/src/components/timeline/timelineUtils.js.
--   Slots: calculateFreeSlots of frontend/src/components/timeline/TimelineRow.jsx.
--   Config: the settings that CreateBookingModal.jsx and BookingTimeline.jsx read.
--   BookingForm: frontend/src/components/timeline/CreateBookingModal.jsx, its handlers as functions of
--     the form to the next form; a sequence of edits is a list (BookingForm/Session).
--   Submission: what that form checks and sends.
--   Store: frontend/src/store/useStore.js.
--   FormDialog: the dialog around that form, with its two steps; a session is a step relation
--     (FormDialog/Sessions).
--   Socket, Listeners: frontend/src/services/websocket.js, as functions of a state that holds the wrapper, the
--     browser's sockets and timers and the store; what the browser does is a step relation
--     (Socket/Steps).
--   Routes: frontend/src/App.jsx, components/ProtectedRoute.jsx, contexts/AuthContext.jsx, pages/Login.jsx
--     and components/layout/Navigation.jsx; a redirection is one step of a session.
--   Countdown: the helper functions of frontend/src/pages/TvDisplay.jsx.
--   Tv, Sounds: the rest of frontend/src/pages/TvDisplay.jsx, and frontend/src/utils/SoundSystem.js; a run
--     of frames is a list of tables and times.
--   Api: frontend/src/api/bookings.js, the bodies of its requests.
--   Bookings: frontend/src/pages/Bookings.jsx; the rows, and the choice of the day with its requests, as
--     functions of events.
--   Summaries: the card of a table on that page.
--   Blocks: frontend/src/components/timeline/BookingBlock.jsx, the actions on a booking.
--   Illumination: frontend/src/pages/Illumination.jsx; clicks and answers are a step relation over the
--     pending actions and the requests under way.
--   Bookings/Dialog: the rest of that page, its settings, its form and the requests of the form.
--   Drawing: frontend/src/components/timeline/BookingTimeline.jsx, with FreeSlotButton.jsx,
--     CurrentTimeLine.jsx and the markup of TimelineRow.jsx; the clock is a step relation over its two
--     timers (Drawing/Clock).
--   Users, SettingsForm: the two tabs of frontend/src/pages/Admin.jsx; a request that waits carries the
--     list that its handler was drawn with, and the settings are shared with the bookings page
--     (SettingsForm/Sessions).
--   Hardware: frontend/src/pages/HardwareStatus.jsx.
--   SocketManager: frontend/src/components/SocketManager.jsx, over the state of Socket; requests for a token
--     are answered in any order.
--   Api/Requests: the other files of frontend/src/api/.
--   Server: the routes of backend/cmd/server/main.go with the roles that they require, and the guards of
--     backend/internal/handler/middleware/auth.go, for the requests that the pages make (Server/Access).
--   Backend: the core of the server, under backend/internal. Rows: domain/types.go and
--     repository/booking_repo.go. Tables: cache/venue_cache.go and service/table_service.go. Days:
--     backend/pkg/timeutil/time.go. Bookings: service/booking_service.go. Handlers, Listing:
--     handler/booking_handler.go, the changes and the timeline. Scheduler: scheduler/scheduler.go. Hub:
--     hub/ws_hub.go, with what it broadcasts to the stores of the pages. Toggle:
--     handler/lights_handler.go. Settings: handler/config_handler.go, service/config_service.go and
--     repository/config_repo.go. Accounts: handler/user_handler.go, with Firebase as a parameter. Lights:
--     hardware/mqtt_client.go, and main/main.ino in the hardware/ of the root, the commands and their
--     acknowledgements in queues, with the two tasks of the controller between them. Backend/Concurrent
--     has the requests at the same time, as a step relation with a lock for each table. Backend/Acceptance
--     takes what the form sends to the handler, and Listing takes what the server lists for a day to the
--     pages.
--   Client: the interceptors of frontend/src/api/client.js, over the session of Routes.
--   Shell: frontend/src/components/ui/Modal.jsx, components/layout/TopHeader.jsx, and the button of
--     pages/Login.jsx.
--   Tests: runs of the definitions, and the theorems at concrete inputs.
--
-- Moments are milliseconds since the epoch, a local clock is the moment plus an offset, and the offset
-- does not change: a change to summer time within a business day is not modelled. Money is in hundredths.
-- A number that the code may compute as NaN is an Option. The digits of a number are written on a fuel,
-- one more than the number, which is enough, since each round divides it by ten; every other function is
-- by structural recursion.
--
-- In the server, the collection of the bookings is the list of its documents, each call of the database
-- may fail, and which of them do is an argument; a text of a time keeps whole seconds. An operation of
-- Tables runs without another goroutine in between; Hub and Lights take it apart into its change of the
-- tables and its sendings, as steps of their own.
--
-- Not modelled: the listing of the users, the handlers of the hardware, the boot and the logger of the
-- server; the synchronisation of a new connection with the controller, its health, its Wi-Fi and its
-- indicator; markup and styles; the network and the browser beyond the events named above.
pub mod Base
pub mod Calendar
pub mod Timeline
pub mod Slots
pub mod Config
pub mod BookingForm
pub mod Submission
pub mod Store
pub mod Listeners
pub mod Socket
pub mod Routes
pub mod Countdown
pub mod Hardware
pub mod SocketManager
pub mod Client
pub mod Server
pub mod Backend
pub mod Drawing
pub mod FormDialog
pub mod Sounds
pub mod Shell
pub mod SettingsForm
pub mod Users
pub mod Tv
pub mod Api
pub mod Bookings
pub mod Summaries
pub mod Blocks
pub mod Illumination
pub mod Tests
