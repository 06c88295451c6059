-- ===== src/Hardware/Failure.antt =====
-- A request for the state of the hardware that fails.
use gbc_smart_management.Base.{none, some, ◌≡◌, refl, text_or}
use gbc_smart_management.Hardware.{
  Health, HardwareState, health_fetched, press_refresh, fetch_health, status_of, status_text,
  is_online, hardware_body, hardware_offline, telemetry, telemetry_of,
}

-- A refresh that fails after one that had data: the page says that the hardware is offline, yet the badge
-- beside the heading, and whether it is drawn as online, are as the old data had them; and once the
-- next refresh is under way, the old data is shown again.
pub failed_refresh_keeps_status :
    (s : HardwareState) (h : Health)
    → s.health_data ≡ some h
    → let failed = health_fetched none (fetch_health s) in
      (hardware_body failed ≡ hardware_offline)
      × (status_text failed ≡ text_or h.status "Offline")
      × (is_online failed ≡ is_online s)
      × (hardware_body (press_refresh failed) ≡ telemetry (telemetry_of h))
unfolding health_fetched fetch_health press_refresh hardware_body status_text status_of is_online
failed_refresh_keeps_status s h e = rw e (refl, refl, refl, refl)
