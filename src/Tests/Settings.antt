-- ===== src/Tests/Settings.antt =====
-- The settings of the club on their way: frontend/src/pages/Admin.jsx and backend/internal.
use gbc_smart_management.Base.{
  min, List, ◌≤◌, every, true, ℕ, ◌+◌, ◌*◌, ◌-◌, ◌/◌, ◌≡◌, refl, arith, Option, none, some, Text,
  ltb, ◌==◌, ◌||◌, if◌then◌else◌, [], ◌∷◌,
}
use gbc_smart_management.BookingForm.{time_text}
use gbc_smart_management.Config.{open_hour_of, close_hour_of, base_close_hour}
use gbc_smart_management.SettingsForm.{SettingsFields, config_sent}
use gbc_smart_management.Timeline.{Booking, start_of_day, dynamic_close_hour}
use gbc_smart_management.Backend.Days.{day_start, day_end}
use gbc_smart_management.Backend.Bookings.{ok, failed}
use gbc_smart_management.Backend.Settings.{
  Driver, FieldValue, number_value, text_value, other_value, Settings, handle_update_config,
  handle_get_config, settings_body, config_of, venue_config_of, is_allowed,
}
use gbc_smart_management.Backend.Settings.Hours.{saved_hours_on_both_sides}
use gbc_smart_management.Tests.Data.{zone, noon}

read_rate : FieldValue → Option ℕ
read_rate (number_value n) = some n
read_rate (text_value t) = none
read_rate other_value = none

read_text : FieldValue → Option Text
read_text (number_value n) = none
read_text (text_value t) = some t
read_text other_value = none

abbrev driver : Driver
driver = record { rate_from = read_rate; text_from = read_text }

-- Open from 09:30 to 23:00.
abbrev evening : SettingsFields
evening = record { rate = some 150000; opening = time_text 9 30; closing = time_text 23 0 }

unknown_field_is_refused :
    handle_update_config driver true noon (some (("rate", number_value 1) ∷ [])) none
    ≡ (failed 400, none)
unfolding handle_update_config is_allowed every
unknown_field_is_refused = refl

saved_hours_on_both_sides_example :
    let saved =
      handle_update_config driver true noon (some (settings_body (config_sent evening))) none in
    let date = (noon + zone) / 86400000 in
    let start = start_of_day zone noon 9 in
    (s : Settings) × (saved.0 ≡ ok s)
    × (handle_get_config driver true saved.1 ≡ ok (some s))
    × (config_of s ≡ config_sent evening)
    × (open_hour_of (some (config_of s)) ≡ some 9)
    × (close_hour_of (some (config_of s)) 9 ≡ some (base_close_hour 9 23))
    × (dynamic_close_hour zone [] 9 (base_close_hour 9 23) noon
        ≡ min (base_close_hour 9 23) (9 + 20))
    × ((bs : List Booking)
        → (min (base_close_hour 9 23) (9 + 20)
            ≤ dynamic_close_hour zone bs 9 (base_close_hour 9 23) noon)
          × (dynamic_close_hour zone bs 9 (base_close_hour 9 23) noon ≤ 9 + 20))
    × (day_start zone date (venue_config_of s) ≡ start + 30 * 60000)
    × (day_end zone date (venue_config_of s) ≡ (
        start
        + (base_close_hour 9 23 - 9) * 3600000
        + 0 * 60000
        + (if 23 == 0 || ltb 23 9 then 0 else 86400000)))
unfolding read_rate read_text
saved_hours_on_both_sides_example =
    saved_hours_on_both_sides driver zone noon noon 9 30 23 0 evening none (λ r. refl) (λ x. refl)
      (omega arith) (omega arith) (omega arith) (omega arith) refl refl (omega arith) (omega arith)
      (omega arith)
