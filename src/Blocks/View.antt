-- ===== src/Blocks/View.antt =====
-- frontend/src/components/timeline/BookingBlock.jsx: what a block and its popup show, and which of its
-- buttons do something.
use gbc_smart_management.Base.{
  ℕ, ◌/◌, ◌==◌, ◌≡◌, ◌↔◌, arith, ltb, leb, max, ℤ, Bool, true, false, not, ◌&&◌, ◌||◌,
  if◌then◌else◌, Option, none, some, Text, codes, decimal, ◌++◌, filter_by, is_space,
}
use gbc_smart_management.Timeline.{Booking, end_time, time_to_pixels, duration_to_pixels}
use gbc_smart_management.Countdown.{locale_time}
use gbc_smart_management.Drawing.Durations.{tenths_of_hour, tenths_text}
use gbc_smart_management.Blocks.{Block, toggle_paid, cancel_booking, cancel}

-- `formatTime`
unfoldable pub time_or_dashes : ℕ → ℕ → Text
time_or_dashes zone ms = if ms == 0 then codes "--:--" else locale_time zone ms

-- `isPlaying` and `isPast`
unfoldable pub is_playing : ℕ → Booking → Bool
is_playing now b = leb b.start_time now && leb now (end_time b)

unfoldable pub is_past : ℕ → Booking → Bool
is_past now b = ltb (end_time b) now

-- The popup; the two buttons of the actions are disabled or not.
pub record Popup : Type 0 where
  pub player : Text
  pub mobile : Text
  pub paid_text : Text
  pub time : Text
  pub hours : Text
  pub amount : Text
  pub call_link : Text
  pub paid_title : Text
  pub paid_disabled : Bool
  pub cancel_disabled : Bool

pub record BlockView : Type 0 where
  pub left : ℤ
  pub width : ℕ
  pub player : Text
  pub line : Text
  pub is_paid : Bool
  pub popup : Option Popup

-- `Math.floor(booking.amount)`, of hundredths.
abbrev pub dollars : Booking → Text
dollars b = codes "$" ++ decimal (b.amount / 100)

unfoldable pub popup_of : (ℕ → Bool) → ℕ → ℕ → Booking → Block → Popup
popup_of tie_up zone now b s = record {
  player = b.player;
  mobile = b.mobile;
  paid_text = if b.paid then codes "Paid" else codes "Unpaid";
  time = time_or_dashes zone b.start_time ++ codes " → " ++ time_or_dashes zone (end_time b);
  hours = tenths_text (tenths_of_hour tie_up b.duration) ++ codes " Hours";
  amount = dollars b;
  call_link = codes "tel:" ++ filter_by (λ c. not (is_space c)) b.mobile;
  paid_title = if b.paid then codes "Mark Unpaid" else codes "Mark Paid";
  paid_disabled = s.is_updating;
  cancel_disabled = ltb b.start_time now || s.is_updating;
}

unfoldable pub block_view : (ℕ → Bool) → ℕ → ℕ → ℕ → Booking → Block → BlockView
block_view tie_up zone open_hour now b s = record {
  left = time_to_pixels zone b.start_time open_hour now;
  width = max (duration_to_pixels b.duration) 50;
  player = b.player;
  line =
      time_or_dashes zone b.start_time
      ++ codes " - "
      ++ time_or_dashes zone (end_time b)
      ++ codes " • "
      ++ dollars b;
  is_paid = b.paid;
  popup = if s.show_modal then some (popup_of tie_up zone now b s) else none;
}

-- The button that cancels is enabled exactly where a click on it makes the call, for the time at which the
-- popup was drawn, and the button of the payment likewise.
pub popup_of-toggle_paid :
    (tie_up : ℕ → Bool) (zone now : ℕ) (b : Booking) (s : Block)
    → ((popup_of tie_up zone now b s).cancel_disabled ≡ false
        ↔ (cancel_booking now b s ≡ some (cancel b.booking_id)))
      × ((popup_of tie_up zone now b s).paid_disabled ≡ true ↔ (toggle_paid b s ≡ none))
unfolding popup_of cancel_booking toggle_paid
popup_of-toggle_paid tie_up zone now b s = ground arith
