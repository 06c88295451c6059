-- ===== src/Tests/Admin.antt =====
-- Admin.jsx, api/client.js and HardwareStatus.jsx
use gbc_smart_management.Base.{
  some_by, ◌≡◌, refl, true, false, [], ◌∷◌, none, some, String, ℕ, codes, pos, negsuc, floor_div,
}
use gbc_smart_management.Config.{GlobalConfig}
use gbc_smart_management.Routes.{User, Session, login, admin, allowed_roles, redirect}
use gbc_smart_management.Users.{
  ListedUser, UserList, users_fetched, initial_list, users_or_none, view_users, no_users,
}
use gbc_smart_management.Users.Dates.{format_unix_ms_relative, hours_ago, ago}
use gbc_smart_management.SettingsForm.{SettingsFields, SettingsForm, config_sent, presses, answers}
use gbc_smart_management.SettingsForm.Sessions
use gbc_smart_management.SettingsForm.Sessions.{World, edits, opens_bookings, run_world}
use gbc_smart_management.Client.{
  Attempt, answered, refused, token_failed, token_found, attach_token, after_requests,
}
use gbc_smart_management.Client.Unauthorized
use gbc_smart_management.Hardware.{
  Health, HardwareState, initial_hardware, health_fetched, hardware_body, telemetry, telemetry_of,
  signal_level,
}

abbrev listed : String → String → ListedUser
listed uid role = record {
  uid = uid;
  email = some "x@example.com";
  display_name = none;
  photo_url = none;
  role = some role;
  creation_time = some 1;
  last_sign_in_time = none;
}

abbrev pub staff_list : UserList
staff_list = record {
  users = listed "a" "admin" ∷ listed "b" "staff" ∷ [];
  is_loading = false;
  error = "";
  updating_user = none;
  alerts = [];
}

first_list : view_users 0 (users_fetched (some none) initial_list) ≡ no_users
unfolding view_users users_fetched initial_list users_or_none
first_list = refl

three_hours_ago : format_unix_ms_relative 20000000 (some 8000000) ≡ hours_ago 3
unfolding format_unix_ms_relative ago floor_div
three_hours_ago = refl

abbrev fee : ℕ
fee = 2000

abbrev fields : SettingsFields
fields = record { rate = some fee; opening = codes "10:00"; closing = codes "02:00" }

abbrev cheap : GlobalConfig
cheap = record { hourly_rate = 1000; venue_start_time = codes "09:00"; venue_close_time = [] }

abbrev filled : SettingsForm
filled = record {
  config = fields;
  is_loading = false;
  is_saving = false;
  save_status = none;
  request = none;
  timers = 0;
}

abbrev world : World
world = record {
  form = filled;
  server = cheap;
  store = record {
    tables = some [];
    timeline = some [];
    is_connected = false;
    global_config = some cheap;
  };
}

saved_settings_stay_unused_example :
    let u =
      run_world
        (edits presses ∷ edits (answers true) ∷ opens_bookings true ∷ [])
        (run_world [] world) in
    (u.server ≡ config_sent (run_world [] world).form.config) × (u.store.global_config ≡ some cheap)
unfolding run_world
saved_settings_stay_unused_example = Sessions.saved_settings_stay_unused [] world cheap refl refl

abbrev owner : User
owner = record {
  uid = "a";
  email = none;
  display_name = none;
  photo_url = none;
  role = some "admin";
}

abbrev at_admin : Session
at_admin = record { user = some owner; location = admin }

-- The first request has no answer, and the second is refused with the status 401.
abbrev failing : Attempt ℕ
failing = record { lookup = token_failed; reply = λ h. answered 1; signs_out = true }

abbrev unauthorized : Attempt ℕ
unauthorized = record {
  lookup = token_found (some "t");
  reply = λ h. refused 401;
  signs_out = true;
}

after_requests-redirect_example :
    let after = after_requests (failing ∷ unauthorized ∷ []) at_admin in
    (after.user ≡ none) × (redirect true after ≡ record { user = none; location = login })
unfolding allowed_roles attach_token some_by
after_requests-redirect_example =
    Unauthorized.after_requests-redirect (failing ∷ unauthorized ∷ []) true at_admin ("admin" ∷ [])
      refl

abbrev health : Health
health = record {
  status = some "ONLINE";
  metadata = record {
    free_heap = 150000;
    heap_size = 300000;
    rssi = negsuc 64;
    ssid = "club";
    temperature = pos 4250;
    device_name = none;
    ip_address = "10.0.0.2";
    uptime_millis = some 93784567;
  };
  tables = none;
}

abbrev online : HardwareState
online = record { health_data = some health; loading = false; error = false }

first_answer :
    hardware_body (health_fetched (some (some health)) initial_hardware)
    ≡ telemetry (telemetry_of health)
unfolding hardware_body health_fetched initial_hardware
first_answer = refl

signal_of_65 : signal_level (negsuc 64) ≡ 3
unfolding signal_level
signal_of_65 = refl
