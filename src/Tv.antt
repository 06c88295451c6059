-- ===== src/Tv.antt =====
-- frontend/src/pages/TvDisplay.jsx: the card of a table and the sounds it plays.
pub mod Alerts
pub mod Badges
pub mod Page
use gbc_smart_management.Base.{
  ℕ, ◌+◌, ◌-◌, ◌==◌, Bool, true, false, not, ◌&&◌, ◌||◌, map, if◌then◌else◌, List, [], ◌∷◌, ◌++◌,
  Option, none, some, str_eq, Text, codes, is_empty, ℤ, pos, ◌-ℤ◌, ltb_ℤ, floor_div,
}
use gbc_smart_management.Countdown.{format_time_remaining, format_time_range, Percent, get_progress}
use gbc_smart_management.Store.{CurrentBooking, TableState}

-- `tablePropsAreEqual`
abbrev pub same_moment : Option ℕ → Option ℕ → Bool
same_moment none none = true
same_moment none (some b) = false
same_moment (some a) none = false
same_moment (some a) (some b) = a == b

unfoldable pub same_session : Option CurrentBooking → Option CurrentBooking → Bool
same_session none none = true
same_session none (some b) = false
same_session (some a) none = false
same_session (some a) (some b) =
    str_eq a.booking_id b.booking_id
    && same_moment a.check_in_time b.check_in_time
    && same_moment a.check_out_time b.check_out_time

unfoldable pub table_props_are_equal : TableState → TableState → Bool
table_props_are_equal prev next =
    str_eq prev.status next.status && same_session prev.current_booking next.current_booking

-- What `TableCard` computes from its table at the time `now`.
pub record Card : Type 0 where
  pub is_busy : Bool
  pub table_id : ℕ
  pub start_time : ℕ
  pub end_time : ℕ
  pub duration : ℤ
  pub player : Text
  pub remaining_ms : ℤ
  pub elapsed : ℤ
  pub total_seconds : ℤ

abbrev pub moment_of : Option ℕ → ℕ
moment_of none = 0
moment_of (some t) = t

abbrev pub start_of : Option CurrentBooking → ℕ
start_of none = 0
start_of (some b) = moment_of b.check_in_time

abbrev pub end_of : Option CurrentBooking → ℕ
end_of none = 0
end_of (some b) = moment_of b.check_out_time

abbrev pub player_of : Option CurrentBooking → Text
player_of none = codes "Walk-in"
player_of (some b) = if is_empty b.booker_name then codes "Walk-in" else b.booker_name

unfoldable pub card_of : TableState → ℕ → Card
card_of table now =
    let busy = str_eq table.status "BUSY" in
    let start = if busy then start_of table.current_booking else 0 in
    let finish = if busy then end_of table.current_booking else 0 in
    let remaining = if busy then pos finish -ℤ pos now else pos 0 in
    record {
      is_busy = busy;
      table_id = table.table_id;
      start_time = start;
      end_time = finish;
      duration = if busy then pos finish -ℤ pos start else pos 0;
      player = if busy then player_of table.current_booking else codes "Walk-in";
      remaining_ms = remaining;
      elapsed = if busy then pos now -ℤ pos start else pos 0;
      total_seconds = if busy then floor_div remaining 1000 else pos 0;
    }

-- The sounds of SoundSystem, and the flags of `previousStatesRef.current[tableId]`.
pub data Sound : Type 0 where
  started : Sound
  ending_soon : Sound
  final_minutes : Sound
  ended : Sound

pub record Alerted : Type 0 where
  pub alerted_started : Bool
  pub alerted_ending_soon : Bool
  pub alerted_final : Bool
  pub alerted_ended : Bool

unfoldable pub not_alerted : Alerted
not_alerted = record {
  alerted_started = false;
  alerted_ending_soon = false;
  alerted_final = false;
  alerted_ended = false;
}

-- One `if` of the effect: the sounds so far, the condition, the flag, and the sound.
unfoldable pub play_once : Bool → Bool → Sound → List Sound
play_once condition flag sound = if condition && not flag then sound ∷ [] else []

abbrev pub within : ℤ → ℤ → ℤ → Bool
within low x high = ltb_ℤ low x && not (ltb_ℤ high x)

-- The conditions of the four sounds, less the flags.
unfoldable pub is_due : Sound → Card → Bool
is_due started c = not (ltb_ℤ c.elapsed (pos 0)) && not (ltb_ℤ (pos 60000) c.elapsed)
is_due ending_soon c = within (pos 180) c.total_seconds (pos 600)
is_due final_minutes c = within (pos 0) c.total_seconds (pos 180)
is_due ended c = not (ltb_ℤ (pos 0) c.total_seconds)

-- The effect of `TableCard`, on the flags of its table.
unfoldable pub alert_sounds : Card → Alerted → List Sound
alert_sounds c a =
    if c.is_busy
    then play_once (is_due started c) a.alerted_started started
      ++ play_once (is_due ending_soon c) a.alerted_ending_soon ending_soon
      ++ play_once (is_due final_minutes c) a.alerted_final final_minutes
      ++ play_once (is_due ended c) a.alerted_ended ended
    else []

unfoldable pub alert_flags : Card → Alerted → Alerted
alert_flags c a =
    if c.is_busy
    then record {
      alerted_started = a.alerted_started || is_due started c;
      alerted_ending_soon = a.alerted_ending_soon || is_due ending_soon c;
      alerted_final = a.alerted_final || is_due final_minutes c;
      alerted_ended = a.alerted_ended || is_due ended c;
    }
    else a

-- `previousStatesRef.current`, the flags of each table; a table with none has those that are not set.
abbrev pub PreviousStates : Type 0
PreviousStates = ℕ → Alerted

-- The effect on the flags of all tables, with the sounds it plays.
unfoldable pub run_effect : TableState → ℕ → PreviousStates → PreviousStates
run_effect table now previous id =
    if id == table.table_id then alert_flags (card_of table now) (previous id) else previous id

-- The frames of the display: the state of a table and the time, in the order of their effects. The
-- result is the sounds, each with its table.
pub record Played : Type 0 where
  pub table_id : ℕ
  pub sound : Sound

unfoldable pub run_frames : List (TableState × ℕ) → PreviousStates → List Played
run_frames [] previous = []
run_frames (f ∷ fs) previous =
    map (λ s. record { table_id = f.0.table_id; sound = s })
      (alert_sounds (card_of f.0 f.1) (previous f.0.table_id))
    ++ run_frames fs (run_effect f.0 f.1 previous)

-- The badge of a busy card.
pub data Badge : Type 0 where
  in_play : Badge
  ends_soon : Badge
  final_mins : Badge
  time_up : Badge

unfoldable pub badge_of : Card → Badge
badge_of c =
    let is_ended = not (ltb_ℤ (pos 0) c.remaining_ms) in
    let is_final_minutes = not is_ended && not (ltb_ℤ (pos 180000) c.remaining_ms) in
    let is_ending_soon =
      not is_ended && not is_final_minutes && not (ltb_ℤ (pos 600000) c.remaining_ms) in
    if is_ending_soon
    then ends_soon
    else if is_final_minutes
    then final_mins
    else if is_ended
    then time_up
    else in_play

abbrev pub badge_text : Badge → Text
badge_text in_play = codes "IN PLAY"
badge_text ends_soon = codes "ENDING SOON"
badge_text final_mins = codes "FINAL MINS"
badge_text time_up = codes "TIME UP"

-- The texts of a card.
pub data CardView : Type 0 where
  available : ℕ → CardView
  busy : (table_id : ℕ) (badge title timer player session : Text) (progress : Percent) → CardView

unfoldable pub view_card : ℕ → TableState → ℕ → CardView
view_card zone table now =
    let c = card_of table now in
    let is_ended = not (ltb_ℤ (pos 0) c.remaining_ms) in
    if not c.is_busy
    then available c.table_id
    else busy c.table_id (badge_text (badge_of c))
        (if is_ended then codes "Session Ended" else codes "Time Remaining")
        (if is_ended then codes "00:00:00" else format_time_remaining c.start_time c.duration now)
        c.player (format_time_range zone c.start_time c.duration)
        (get_progress c.start_time c.duration now)
