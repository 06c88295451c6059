-- ===== src/Tests.antt =====
-- Runs of the models at concrete inputs, and the theorems of the library at inputs that meet their
-- hypotheses.
mod Data
mod Timeline
mod Slots
mod BookingForm
mod Socket
mod Routes
mod Tv
mod Bookings
mod Illumination
mod Admin
mod Drawing
mod Shell
mod Backend
mod Listing
mod Hub
mod Settings
mod Accounts
mod Scheduler
mod Lights
