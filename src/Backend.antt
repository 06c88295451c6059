-- ===== src/Backend.antt =====
-- backend/internal: the bookings, the tables and the timers of the server.
pub mod Rows
pub mod Tables
pub mod Days
pub mod Bookings
pub mod Handlers
pub mod Hub
pub mod Toggle
pub mod Settings
pub mod Accounts
pub mod Acceptance
pub mod Concurrent
pub mod Scheduler
pub mod Lights
pub mod Listing
