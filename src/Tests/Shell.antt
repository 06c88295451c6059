-- ===== src/Tests/Shell.antt =====
-- Login.jsx, TopHeader.jsx, Modal.jsx, TvDisplay.jsx, SoundSystem.js and Illumination.jsx
use gbc_smart_management.Base.{◌≡◌, refl, true, false, [], ◌∷◌, none, filter_by}
use gbc_smart_management.Routes.{user_of, login, admin}
use gbc_smart_management.Shell.{
  press_login, login_ended, handle_logout, no_dialogs, change_dialog, unmount_dialog, mount_dialog,
  drop_dialog,
}
use gbc_smart_management.Sounds.{suspended, init_audio, play_sound, play_tones, tones_of}
use gbc_smart_management.Tv.{final_minutes}
use gbc_smart_management.Tv.Page.{handle_start, display_view, start_button}
use gbc_smart_management.Illumination.{no_actions}
use gbc_smart_management.Illumination.View.{lights_view}
use gbc_smart_management.Tests.Tv.{first}

login_fails :
    login_ended false (press_login (record { is_logging_in = false; error = "" }))
    ≡ record { is_logging_in = false; error = "Failed to log in. Please try again." }
unfolding press_login login_ended
login_fails = refl

logs_out :
    handle_logout true (record { user = none; location = admin })
    ≡ record { user = none; location = login }
unfolding handle_logout user_of
logs_out = refl

-- Before the start no sound is heard.
silent_before_start : play_sound none final_minutes ≡ []
unfolding play_sound play_tones
silent_before_start = refl

heard_after_start :
    play_sound
      (handle_start true suspended (record { is_started = false; audio = none })).audio
      final_minutes
    ≡ tones_of final_minutes
unfolding play_sound play_tones handle_start init_audio
heard_after_start = refl

waits_for_start :
    display_view 0 true (first ∷ []) 0 (record { is_started = false; audio = none }) ≡ start_button
unfolding display_view
waits_for_start = refl

no_lights : (lights_view [] no_actions).cards ≡ none
unfolding lights_view
no_lights = refl

-- A dialog that closes and is unmounted leaves the page as it was.
dialog_opens_and_goes :
    unmount_dialog 1 (change_dialog 1 true (mount_dialog 1 false no_dialogs)) ≡ no_dialogs
unfolding unmount_dialog change_dialog mount_dialog no_dialogs drop_dialog filter_by
dialog_opens_and_goes = refl
