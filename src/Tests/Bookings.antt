-- ===== src/Tests/Bookings.antt =====
-- Bookings.jsx, BookingBlock.jsx and api/bookings.js
use gbc_smart_management.Base.{◌≡◌, refl, [], ◌∷◌, some, true, false, pos, codes, String, Text}
use gbc_smart_management.Timeline.{Booking}
use gbc_smart_management.Store.{RawBooking, CurrentBooking}
use gbc_smart_management.BookingForm.{BookingData}
use gbc_smart_management.Bookings.{
  no_rows, initial_day, set_selected_date, run_date_effect, fetch_ends, rows_of, is_drawn,
  active_timeline,
}
use gbc_smart_management.Blocks.{opens, clicks_cancel, clicks_paid, answers}
use gbc_smart_management.Bookings.Dialog.{OpenSlot}
use gbc_smart_management.Blocks.Actions
use gbc_smart_management.Blocks.Actions.{run_block, closed_block, IsSingle}

abbrev confirmed : Text → BookingData
confirmed name = record {
  table_id = 2;
  player = name;
  mobile = [];
  start_time = 1000000;
  duration = pos 3600000;
  amount = pos 150000;
  paid = false;
}

abbrev row : String → RawBooking
row id = record {
  id = id;
  table_id = 1;
  booker_name = [];
  booker_mobile = [];
  check_in_time = 0;
  check_out_time = 0;
  amount = 0;
  is_paid = false;
}

-- Behind the selection of another date, its drawing has the rows that were fetched before, until the
-- effect has run.
drawn_before_effect : is_drawn (set_selected_date "d2" (initial_day "d1")) ≡ true
unfolding is_drawn set_selected_date initial_day
drawn_before_effect = refl

not_drawn_after_effect :
    is_drawn (run_date_effect (set_selected_date "d2" (initial_day "d1"))) ≡ false
unfolding is_drawn set_selected_date initial_day run_date_effect
not_drawn_after_effect = refl

rows_after_answer :
    active_timeline
      (fetch_ends 0 no_rows (run_date_effect (set_selected_date "d2" (initial_day "d1"))))
      []
    ≡ []
unfolding active_timeline fetch_ends rows_of set_selected_date initial_day run_date_effect
rows_after_answer = refl

abbrev ann : CurrentBooking
ann = record {
  booking_id = "b";
  booker_name = codes "Ann";
  booker_mobile = [];
  check_in_time = some 1;
  check_out_time = some 2;
  amount = 0;
  is_paid = false;
}

abbrev block_booking : Booking
block_booking = record {
  booking_id = "b";
  table_id = 1;
  player = [];
  mobile = [];
  start_time = 10;
  duration = 10;
  amount = 0;
  paid = false;
}

run_block-IsSingle_example : IsSingle (
    run_block
      (opens ∷ clicks_paid block_booking ∷ clicks_cancel 5 block_booking ∷ answers true ∷ [])
      closed_block)
run_block-IsSingle_example =
    Actions.run_block-IsSingle
      (opens ∷ clicks_paid block_booking ∷ clicks_cancel 5 block_booking ∷ answers true ∷ [])

abbrev clicked : OpenSlot
clicked = record {
  table_id = 2;
  slot = record { start_timestamp = 9000000; duration_ms = 3600000 };
}
