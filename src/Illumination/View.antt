-- ===== src/Illumination/View.antt =====
-- frontend/src/pages/Illumination.jsx: the booking that a card shows, the buttons for all lights, and
-- the grid.
use gbc_smart_management.Base.{
  ℕ, Bool, List, [], ◌∷◌, map, Option, none, some, str_eq, Text, codes, is_empty, if◌then◌else◌,
}
use gbc_smart_management.Store.{TableState, CurrentBooking}
use gbc_smart_management.Illumination.{PendingActions, LightCard, light_card, is_all_on, is_all_off}

-- The first letter of the name, the mobile number where there is one, and the end of the session, which
-- is shown in the locale of the browser.
pub record Player : Type 0 where
  pub letter : Text
  pub mobile : Option Text
  pub ends_at : Option ℕ

abbrev first_letter : Text → Text
first_letter [] = codes "?"
first_letter (c ∷ cs) = c ∷ []

unfoldable pub player_of : CurrentBooking → Player
player_of c = record {
  letter = first_letter c.booker_name;
  mobile = if is_empty c.booker_mobile then none else some c.booker_mobile;
  ends_at = c.check_out_time;
}

-- The middle of a card: the player, or "Tap to toggle".
unfoldable pub player_shown : TableState → Option Player
player_shown t = elim t.current_booking [
  | none ↦ none
  | some c ↦ if str_eq t.status "BUSY" then some (player_of c) else none
]

-- The page: the cards, or "Syncing with hardware...", and which of the two buttons is drawn as active.
pub record LightsView : Type 0 where
  pub all_on : Bool
  pub all_off : Bool
  pub cards : Option (List (LightCard × Option Player))

abbrev pub card_with_player : PendingActions → TableState → LightCard × Option Player
card_with_player p t = (light_card t (p t.table_id), player_shown t)

unfoldable pub lights_view : List TableState → PendingActions → LightsView
lights_view ts p = record {
  all_on = is_all_on ts;
  all_off = is_all_off ts;
  cards = elim ts [ [] ↦ none | t ∷ rest ↦ some (map (card_with_player p) (t ∷ rest)) ];
}
