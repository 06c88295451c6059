-- ===== src/SettingsForm.antt =====
-- frontend/src/pages/Admin.jsx, the form of the club's settings (api/configs.js), with its timers: a
-- saving that succeeds sets one, and each takes away whatever message is shown. The rate is in
-- hundredths.
pub mod Saving
pub mod Sessions
use gbc_smart_management.Base.{
  ℕ, suc, zero, ◌==◌, Bool, true, false, Option, none, some, String, Text, List, [], ◌∷◌, not,
  if◌then◌else◌,
}
use gbc_smart_management.Config.{GlobalConfig}

-- The fields: the rate is `none` where its field is empty.
pub record SettingsFields : Type 0 where
  pub rate : Option ℕ
  pub opening : Text
  pub closing : Text

pub data SaveStatus : Type 0 where
  success failure : SaveStatus

-- With the state, the body of the request under way and how many timers are set.
pub record SettingsForm : Type 0 where
  pub config : SettingsFields
  pub is_loading : Bool
  pub is_saving : Bool
  pub save_status : Option SaveStatus
  pub request : Option GlobalConfig
  pub timers : ℕ

unfoldable pub initial_settings : SettingsForm
initial_settings = record {
  config = record { rate = none; opening = []; closing = [] };
  is_loading = true;
  is_saving = false;
  save_status = none;
  request = none;
  timers = 0;
}

-- `data.hourlyRate || ''`
unfoldable pub rate_field : ℕ → Option ℕ
rate_field r = if r == 0 then none else some r

unfoldable pub fields_of : GlobalConfig → SettingsFields
fields_of c = record {
  rate = rate_field c.hourly_rate;
  opening = c.venue_start_time;
  closing = c.venue_close_time;
}

-- `fetchConfig`, when its request ends: no answer where it fails, and no settings in an empty one.
unfoldable pub config_fetched : Option (Option GlobalConfig) → SettingsForm → SettingsForm
config_fetched none s = record s { is_loading = false }
config_fetched (some none) s = record s { is_loading = false }
config_fetched (some (some c)) s = record s { config = fields_of c; is_loading = false }

-- `handleChange`, of the field that is named.
pub data FieldChange : Type 0 where
  change_rate : Option ℕ → FieldChange
  change_opening : Text → FieldChange
  change_closing : Text → FieldChange

unfoldable pub change_field : FieldChange → SettingsFields → SettingsFields
change_field (change_rate r) c = record c { rate = r }
change_field (change_opening t) c = record c { opening = t }
change_field (change_closing t) c = record c { closing = t }

unfoldable pub handle_change : FieldChange → SettingsForm → SettingsForm
handle_change e s = record s { config = change_field e s.config; save_status = none }

-- `Number(config.hourlyRate)`, of a field that is empty or holds a number.
unfoldable pub rate_sent : Option ℕ → ℕ
rate_sent none = 0
rate_sent (some r) = r

-- The body of `updateConfig`.
unfoldable pub config_sent : SettingsFields → GlobalConfig
config_sent c = record {
  hourly_rate = rate_sent c.rate;
  venue_start_time = c.opening;
  venue_close_time = c.closing;
}

-- `handleSave` up to its request, behind its button, which is disabled during a saving.
unfoldable pub handle_save : SettingsForm → SettingsForm
handle_save s =
    if s.is_saving
    then s
    else record s { is_saving = true; save_status = none; request = some (config_sent s.config) }

-- The rest of it, when the request ends.
unfoldable pub save_answered : Bool → SettingsForm → SettingsForm
save_answered true s = record s {
  save_status = some success;
  timers = suc s.timers;
  is_saving = false;
  request = none;
}
save_answered false s = record s { save_status = some failure; is_saving = false; request = none }

-- One of the timers.
unfoldable pub timer_fires : SettingsForm → SettingsForm
timer_fires s = elim s.timers [ zero ↦ s | suc n ↦ record s { save_status = none; timers = n } ]

-- What happens to the form: a change, the button, the end of a request, a timer.
pub data FormEvent : Type 0 where
  changes : FieldChange → FormEvent
  presses : FormEvent
  answers : Bool → FormEvent
  fires : FormEvent

unfoldable pub form_step : FormEvent → SettingsForm → SettingsForm
form_step (changes e) s = handle_change e s
form_step presses s = handle_save s
form_step (answers ok) s = elim s.request [ none ↦ s | some c ↦ save_answered ok s ]
form_step fires s = timer_fires s

unfoldable pub run_form : List FormEvent → SettingsForm → SettingsForm
run_form [] s = s
run_form (e ∷ es) s = run_form es (form_step e s)

-- What is rendered: a spinner, or the fields with the message and whether the button is enabled.
pub data SettingsView : Type 0 where
  loading_settings : SettingsView
  fields : SettingsFields → Option String → Bool → SettingsView

unfoldable pub status_text : Option SaveStatus → Option String
status_text none = none
status_text (some success) = some "Settings Saved!"
status_text (some failure) = some "Save Failed"

unfoldable pub view_settings : SettingsForm → SettingsView
view_settings s =
    if s.is_loading
    then loading_settings
    else fields s.config (status_text s.save_status) (not s.is_saving)
