-- ===== src/Tests/Data.antt =====
-- The inputs: 9 January 2026 in Sri Lanka, with the opening at ten in the morning.
use gbc_smart_management.Base.{ℕ, List, [], ◌∷◌, true, false, codes}
use gbc_smart_management.Timeline.{Booking}

abbrev pub zone : ℕ
zone = 19800000

-- 10:00, 10:10, 11:00, 12:00 and 12:30 of the local clock.
abbrev pub ten : ℕ
ten = 1768019400000

abbrev pub ten_past : ℕ
ten_past = 1768020000000

abbrev pub eleven : ℕ
eleven = 1768023000000

abbrev pub noon : ℕ
noon = 1768026600000

abbrev pub half_past_noon : ℕ
half_past_noon = 1768028400000

abbrev pub booking_a : Booking
booking_a = record {
  booking_id = "a";
  table_id = 1;
  player = codes "Ann";
  mobile = codes "077";
  start_time = eleven;
  duration = 3600000;
  amount = 1500;
  paid = false;
}

abbrev pub booking_b : Booking
booking_b = record {
  booking_id = "b";
  table_id = 1;
  player = codes "Ben";
  mobile = codes "071";
  start_time = 1768030200000;
  duration = 1800000;
  amount = 750;
  paid = true;
}

abbrev pub bookings : List Booking
bookings = booking_b ∷ booking_a ∷ []
