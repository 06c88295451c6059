-- ===== src/Tests/Tv.antt =====
-- TvDisplay.jsx
use gbc_smart_management.Base.{
  ℕ, ◌≡◌, refl, [], ◌∷◌, some, true, false, codes, not, if◌then◌else◌, ◌&&◌, floor_div, ◌-ℤ◌,
}
use gbc_smart_management.Store.{TableState}
use gbc_smart_management.Tv.{
  card_of, is_due, ending_soon, run_frames, not_alerted, PreviousStates, alert_sounds, play_once,
  run_effect, alert_flags,
}
use gbc_smart_management.Tv.Alerts
use gbc_smart_management.Tv.Alerts.{count_played, some_calls, calls_for, flag_of}

-- A session at table 1 from 10000 s to 13600 s.
abbrev session : ℕ → ℕ → TableState
session start finish = record {
  table_id = 1;
  table_name = codes "One";
  status = "BUSY";
  light_status = "ON";
  current_booking = some (record {
    booking_id = "b";
    booker_name = codes "Ann";
    booker_mobile = [];
    check_in_time = some start;
    check_out_time = some finish;
    amount = 0;
    is_paid = false;
  });
}

abbrev pub first : TableState
first = session 10000000 13600000

abbrev second : TableState
second = session 20000000 23600000

abbrev no_flags : PreviousStates
no_flags id = not_alerted

-- Nine minutes before the end.
first_warns :
    run_frames ((first, 13060000) ∷ []) no_flags ≡ record { table_id = 1; sound = ending_soon } ∷ []
unfolding run_frames alert_sounds card_of play_once is_due not_alerted floor_div ◌-ℤ◌ run_effect
    alert_flags
first_warns = refl

first_calls : some_calls 1 ending_soon ((first, 13060000) ∷ []) ≡ true
unfolding some_calls calls_for first_warns
first_calls = refl

run_frames_plays_example :
    count_played 1 ending_soon (run_frames ((first, 13060000) ∷ []) no_flags) ≡ (
      if some_calls 1 ending_soon ((first, 13060000) ∷ []) && not (flag_of ending_soon (no_flags 1))
      then 1
      else 0)
run_frames_plays_example = Alerts.run_frames_plays 1 ending_soon ((first, 13060000) ∷ []) no_flags
