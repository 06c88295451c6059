-- ===== src/Illumination.antt =====
-- frontend/src/pages/Illumination.jsx: switching the lights of the tables.
pub mod Pending
pub mod View
use gbc_smart_management.Base.{
  ℕ, ◌==◌, ltb, Bool, true, false, not, ◌&&◌, ◌||◌, if◌then◌else◌, List, [], ◌∷◌, length, every,
  some_by, filter_by, Option, none, some, String, str_eq, Text, codes, is_empty, decimal, ◌++◌, map,
  ◌≡◌,
}
use gbc_smart_management.Store.{CurrentBooking, TableState}

-- The state that a switch aims at.
pub data Target : Type 0 where
  on : Target
  off : Target

unfoldable pub target_text : Target → String
target_text on = "ON"
target_text off = "OFF"

unfoldable pub pending_text : Target → String
pending_text on = "PENDING-ON"
pending_text off = "PENDING-OFF"

unfoldable pub is_on_text : String → Bool
is_on_text s = str_eq s "ON" || str_eq s "PENDING-ON"

unfoldable pub is_off_text : String → Bool
is_off_text s = str_eq s "OFF" || str_eq s "PENDING-OFF"

unfoldable pub is_pending_text : String → Bool
is_pending_text s = str_eq s "PENDING-ON" || str_eq s "PENDING-OFF"

-- `pendingActions`: the target of each table that waits.
abbrev pub PendingActions : Type 0
PendingActions = ℕ → Option Target

abbrev pub no_actions : PendingActions
no_actions id = none

-- `localPendingState || table.lightStatus`
unfoldable pub effective_status : Option Target → String → String
effective_status none light_status = light_status
effective_status (some t) light_status = pending_text t

-- `tablePropsAreEqual`
unfoldable pub same_id : Option CurrentBooking → Option CurrentBooking → Bool
same_id none none = true
same_id none (some b) = false
same_id (some a) none = false
same_id (some a) (some b) = str_eq a.booking_id b.booking_id

unfoldable pub same_action : Option Target → Option Target → Bool
same_action none none = true
same_action (some on) (some on) = true
same_action (some off) (some off) = true
same_action _ _ = false

unfoldable pub table_props_are_equal :
    TableState → Option Target → TableState → Option Target → Bool
table_props_are_equal prev p next n =
    str_eq prev.status next.status
    && str_eq prev.light_status next.light_status
    && same_id prev.current_booking next.current_booking
    && same_action p n

-- A request to the server: for one table, or for all.
pub data Request : Type 0 where
  one : ℕ → Target → Request
  all : List ℕ → Target → Request

-- The target of `toggleLight`.
unfoldable pub target_of : String → Target
target_of light_status = if is_on_text light_status then off else on

-- The tables that a request holds pending: for all lights, those of the render that made it.
abbrev pub includes_id : List ℕ → ℕ → Bool
includes_id ids id = some_by (λ x. id == x) ids

unfoldable pub holds : Request → ℕ → Bool
holds (one i t) id = id == i
holds (all ids t) id = includes_id ids id

abbrev pub aim : Request → Target
aim (one i t) = t
aim (all ids t) = t

-- `setPendingActions` before the `await`, and in the `finally`, whatever the answer is.
unfoldable pub mark : Request → PendingActions → PendingActions
mark r p id = if holds r id then some (aim r) else p id

unfoldable pub unmark : Request → PendingActions → PendingActions
unmark r p id = if holds r id then none else p id

-- The click on a card: no request while the card is pending. The status is that of the table.
unfoldable pub click : TableState → PendingActions → Option Request
click table p =
    if is_pending_text (effective_status (p table.table_id) table.light_status)
    then none
    else some (one table.table_id (target_of table.light_status))

-- The buttons for all lights.
unfoldable pub click_all : List TableState → Target → Request
click_all tables t = all (map (λ x. x.table_id) tables) t

-- `isAllOn` and `isAllOff`
unfoldable pub is_all_on : List TableState → Bool
is_all_on tables = ltb 0 (length tables) && every (λ t. is_on_text t.light_status) tables

unfoldable pub is_all_off : List TableState → Bool
is_all_off tables = ltb 0 (length tables) && every (λ t. is_off_text t.light_status) tables

-- The page: the pending actions, and the requests under way.
pub record Lights : Type 0 where
  pub pending : PendingActions
  pub under_way : List Request

unfoldable pub send : Option Request → Lights → Lights
send none l = l
send (some r) l = record { pending = mark r l.pending; under_way = r ∷ l.under_way }

-- A click on a card, and the answer to any request under way, also an error.
pub data LightStep : Lights → Lights → Type 0 where
  clicks : {l : Lights} (table : TableState) → LightStep l (send (click table l.pending) l)
  answers :
      {l : Lights} (before : List Request) (r : Request) (after : List Request)
      → l.under_way ≡ before ++ r ∷ after
      → LightStep l (record { pending = unmark r l.pending; under_way = before ++ after })

pub data LightRun : Lights → Lights → Type 0 where
  stay : {l : Lights} → LightRun l l
  then_step : {l m n : Lights} → LightRun l m → LightStep m n → LightRun l n

abbrev pub initial_lights : Lights
initial_lights = record { pending = no_actions; under_way = [] }

-- The texts of a card.
pub record LightCard : Type 0 where
  pub is_on : Bool
  pub is_pending : Bool
  pub is_busy : Bool
  pub power_text : Text
  pub state_text : Text
  pub title : Text

abbrev pub name_of : TableState → Text
name_of t = if is_empty t.table_name then codes "Table " ++ decimal t.table_id else t.table_name

unfoldable pub title_of : Bool → TableState → Option CurrentBooking → Text
title_of busy t none = name_of t
title_of busy t (some c) =
    if busy then if is_empty c.booker_name then codes "Walk-in" else c.booker_name else name_of t

unfoldable pub light_card : TableState → Option Target → LightCard
light_card t p =
    let status = effective_status p t.light_status in
    let busy = str_eq t.status "BUSY" in
    record {
      is_on = is_on_text status;
      is_pending = is_pending_text status;
      is_busy = busy;
      power_text = if is_on_text status then codes "Power On" else codes "Standby";
      state_text = if busy then codes "Busy" else codes "Available";
      title = title_of busy t t.current_booking;
    }
