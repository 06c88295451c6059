-- ===== src/Tv/Page.antt =====
-- frontend/src/pages/TvDisplay.jsx: the page around the cards, with the header's clock and the button
-- that starts it, which makes the audio context.
use gbc_smart_management.Base.{
  ℕ, Bool, true, List, [], ◌∷◌, map, Option, none, some, Text, codes, if◌then◌else◌, two_digits,
  ◌++◌,
}
use gbc_smart_management.Calendar.{get_hours, get_minutes}
use gbc_smart_management.Timeline.{hour_12, is_am}
use gbc_smart_management.Store.{TableState}
use gbc_smart_management.Sounds.{ContextState, init_audio}
use gbc_smart_management.Tv.{CardView, view_card}

pub record Display : Type 0 where
  pub is_started : Bool
  pub audio : Option ContextState

-- `handleStart`
unfoldable pub handle_start : Bool → ContextState → Display → Display
handle_start available made s = record {
  is_started = true;
  audio = init_audio available made s.audio;
}

-- `currentTimeStr`: the locale en-US with two digits for the hour and the minute.
unfoldable pub header_time : ℕ → ℕ → Text
header_time zone now =
    two_digits (hour_12 (get_hours zone now))
    ++ b':' ∷ two_digits (get_minutes zone now)
    ++ (if is_am (get_hours zone now) then codes " AM" else codes " PM")

-- What is rendered: the button alone, or the header with the cards.
pub data DisplayView : Type 0 where
  start_button : DisplayView
  board : (connection time : Text) → Option (List CardView) → DisplayView

unfoldable pub cards_of : ℕ → List TableState → ℕ → Option (List CardView)
cards_of zone [] now = none
cards_of zone (t ∷ ts) now = some (map (λ x. view_card zone x now) (t ∷ ts))

unfoldable pub display_view : ℕ → Bool → List TableState → ℕ → Display → DisplayView
display_view zone is_connected tables now s =
    if s.is_started
    then board (if is_connected then codes "Live" else codes "Disconnected") (header_time zone now)
        (cards_of zone tables now)
    else start_button
