-- ===== src/Api/Payloads.antt =====
-- What the server is told, and what it is not.
use gbc_smart_management.Base.{ℕ, ◌-◌, ◌≡◌, arith, String, pos, pos_part, ◌+ℤ◌, is_empty, false}
use gbc_smart_management.Store.{RawBooking}
use gbc_smart_management.BookingForm.{BookingData}
use gbc_smart_management.Bookings.{to_booking}
use gbc_smart_management.Api.{
  CreatePayload, create_booking, check_out_of, all_of, update_booking, check_out_sent,
  check_in_sent,
}

-- A change of the player's name or mobile number alone does not reach the server: the edits of two
-- forms that differ in the table, the player and the mobile number only are sent as the same update.
pub update_booking_forgets_player :
    (d e : BookingData)
    → d.start_time ≡ e.start_time
    → d.duration ≡ e.duration
    → d.amount ≡ e.amount
    → d.paid ≡ e.paid
    → update_booking (all_of d) ≡ update_booking (all_of e)
unfolding update_booking all_of check_in_sent check_out_sent
update_booking_forgets_player d e hs hd ha hp = cc

-- The row of a server that keeps what it is sent, under an id of its own.
pub stored : String → CreatePayload → RawBooking
stored id p = record {
  id = id;
  table_id = p.table_id;
  booker_name = p.booker_name;
  booker_mobile = p.booker_mobile;
  check_in_time = p.check_in_time;
  check_out_time = p.check_out_time;
  amount = pos_part p.amount;
  is_paid = p.is_paid;
}

check_out_of_lem : (start n : ℕ) → check_out_of start (pos n) - start ≡ n
unfolding check_out_of ◌+ℤ◌
check_out_of_lem start n = ground arith

-- A booking that was created comes back to the timeline as it was confirmed, if its duration and its
-- amount are not negative, its player has a name, and the server keeps what it is sent.
pub to_booking-create_booking :
    (id : String) (d : BookingData) (duration amount : ℕ)
    → d.duration ≡ pos duration
    → d.amount ≡ pos amount
    → is_empty d.player ≡ false
    → to_booking (stored id (create_booking d)) ≡ record {
      booking_id = id;
      table_id = d.table_id;
      player = d.player;
      mobile = d.mobile;
      start_time = d.start_time;
      duration = duration;
      amount = amount;
      paid = d.paid;
    }
unfolding to_booking stored create_booking
to_booking-create_booking id d n a hd ha hp = rw (hd, ha, hp) (rw (check_out_of_lem d.start_time n))
