-- ===== src/Api.antt =====
-- frontend/src/api/bookings.js: what the calls send to the server. A time stands for its ISO text.
pub mod Payloads
pub mod Requests
use gbc_smart_management.Base.{
  Bool, true, false, Option, none, some, Text, ℕ, ℤ, pos, ◌+ℤ◌, pos_part, String,
}
use gbc_smart_management.BookingForm.{BookingData}

-- The body of `createBooking`. A check-out before the epoch is the epoch here.
pub record CreatePayload : Type 0 where
  pub table_id : ℕ
  pub booker_name : Text
  pub booker_mobile : Text
  pub check_in_time : ℕ
  pub check_out_time : ℕ
  pub amount : ℤ
  pub is_paid : Bool

unfoldable pub check_out_of : ℕ → ℤ → ℕ
check_out_of start duration = pos_part (pos start +ℤ duration)

unfoldable pub create_booking : BookingData → CreatePayload
create_booking d = record {
  table_id = d.table_id;
  booker_name = d.player;
  booker_mobile = d.mobile;
  check_in_time = d.start_time;
  check_out_time = check_out_of d.start_time d.duration;
  amount = d.amount;
  is_paid = d.paid;
}

-- What the callers hand to `updateBooking`: a field is `none` where the object has none.
pub record UpdatedData : Type 0 where
  pub table_id : Option ℕ
  pub player : Option Text
  pub mobile : Option Text
  pub start_time : Option ℕ
  pub duration : Option ℤ
  pub amount : Option ℤ
  pub paid : Option Bool

-- The form's data, and `{ paid: !isPaid }` of BookingBlock.
unfoldable pub all_of : BookingData → UpdatedData
all_of d = record {
  table_id = some d.table_id;
  player = some d.player;
  mobile = some d.mobile;
  start_time = some d.start_time;
  duration = some d.duration;
  amount = some d.amount;
  paid = some d.paid;
}

unfoldable pub only_paid : Bool → UpdatedData
only_paid b = record {
  table_id = none;
  player = none;
  mobile = none;
  start_time = none;
  duration = none;
  amount = none;
  paid = some b;
}

-- The body of `updateBooking`.
pub record UpdatePayload : Type 0 where
  pub check_in_time : Option ℕ
  pub check_out_time : Option ℕ
  pub amount : Option ℤ
  pub is_paid : Option Bool

unfoldable pub check_out_sent : Option ℕ → Option ℤ → Option ℕ
check_out_sent (some start) (some duration) = some (check_out_of start duration)
check_out_sent none d = none
check_out_sent (some start) none = none

unfoldable pub check_in_sent : Option ℕ → Option ℤ → Option ℕ
check_in_sent (some start) (some duration) = some start
check_in_sent none d = none
check_in_sent (some start) none = none

unfoldable pub update_booking : UpdatedData → UpdatePayload
update_booking u = record {
  check_in_time = check_in_sent u.start_time u.duration;
  check_out_time = check_out_sent u.start_time u.duration;
  amount = u.amount;
  is_paid = u.paid;
}
