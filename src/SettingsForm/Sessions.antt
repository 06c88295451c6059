-- ===== src/SettingsForm/Sessions.antt =====
-- The settings form and the bookings page in one session of the browser: they share the server's
-- settings and the page's store.
use gbc_smart_management.Base.{
  Bool, true, false, List, [], ◌∷◌, none, some, ◌≡◌, refl, arith, if◌then◌else◌,
}
use gbc_smart_management.Config.{GlobalConfig}
use gbc_smart_management.Store.{Store}
use gbc_smart_management.Bookings.Dialog.{load_config}
use gbc_smart_management.SettingsForm.{
  SettingsForm, config_sent, handle_save, save_answered, FormEvent, presses, answers, form_step,
}

pub record World : Type 0 where
  pub form : SettingsForm
  pub server : GlobalConfig
  pub store : Store

-- An event of the form, or the bookings page is opened, and its request for the settings succeeds or
-- not.
pub data Event : Type 0 where
  edits : FormEvent → Event
  opens_bookings : Bool → Event

-- The server takes the settings of a request that it accepts.
unfoldable pub server_after : FormEvent → SettingsForm → GlobalConfig → GlobalConfig
server_after (answers true) s c = elim s.request [ none ↦ c | some sent ↦ sent ]
server_after _ s c = c

unfoldable pub world_step : Event → World → World
world_step (edits e) w = record w {
  form = form_step e w.form;
  server = server_after e w.form w.server;
}
world_step (opens_bookings ok) w = record w {
  store = load_config (if ok then some (some w.server) else none) w.store;
}

unfoldable pub run_world : List Event → World → World
run_world [] w = w
run_world (e ∷ es) w = run_world es (world_step e w)

world_step-stored :
    (e : Event) (w : World) (c : GlobalConfig)
    → w.store.global_config ≡ some c
    → (world_step e w).store.global_config ≡ some c
unfolding world_step load_config
world_step-stored e w c h = ground arith

stored_stay :
    (es : List Event) (w : World) (c : GlobalConfig)
    → w.store.global_config ≡ some c
    → (run_world es w).store.global_config ≡ some c
unfolding run_world
stored_stay [] w c h = h
stored_stay (e ∷ es) w c h = stored_stay es (world_step e w) c (world_step-stored e w c h)

saved_once :
    (v : World)
    → v.form.is_saving ≡ false
    → (run_world (edits presses ∷ edits (answers true) ∷ []) v).server ≡ config_sent v.form.config
unfolding run_world world_step server_after form_step handle_save save_answered
saved_once v quiet = simp quiet refl

-- In a session whose store has settings, and after any events: the next saving that the server accepts
-- changes the server's settings to those of the form, but the bookings page, opened then, still has the
-- settings that the store had first.
pub saved_settings_stay_unused :
    (es : List Event) (w : World) (c : GlobalConfig)
    → w.store.global_config ≡ some c
    → (run_world es w).form.is_saving ≡ false
    → let v = run_world es w in
      let u = run_world (edits presses ∷ edits (answers true) ∷ opens_bookings true ∷ []) v in
      (u.server ≡ config_sent v.form.config) × (u.store.global_config ≡ some c)
unfolding run_world world_step
saved_settings_stay_unused es w c h quiet = (
  saved_once (run_world es w) quiet,
  stored_stay (edits presses ∷ edits (answers true) ∷ opens_bookings true ∷ []) (run_world es w) c
      (stored_stay es w c h),
)
