-- ===== src/Tests/Illumination.antt =====
-- Illumination.jsx
use gbc_smart_management.Base.{◌≡◌, refl, some}
use gbc_smart_management.Illumination.{
  off, one, click, send, no_actions, stay, then_step, clicks, initial_lights, target_of, is_on_text,
  is_pending_text, effective_status,
}
use gbc_smart_management.Illumination.Pending
use gbc_smart_management.Illumination.Pending.{IsLocked, holding}
use gbc_smart_management.Tests.Tv.{first}

-- The light of the first table is on.
first_goes_off : click first no_actions ≡ some (one 1 off)
unfolding click target_of is_on_text is_pending_text effective_status
first_goes_off = refl

clicks-IsLocked_example : IsLocked (send (click first no_actions) initial_lights)
clicks-IsLocked_example = Pending.clicks-IsLocked (then_step stay (clicks first))
