-- ===== src/Backend/Listing/Created.antt =====
-- From the confirmation of a new booking to the timeline of its day.
use gbc_smart_management.Base.{
  ℕ, ◌+◌, ◌<◌, ◌≡◌, refl, sym, ◌∙◌, ap, arith, List, [], ◌∷◌, ◌++◌, true, false, some, String, pos,
  ◌+ℤ◌, is_empty, Any, Any-append_right, inl, subst,
}
use gbc_smart_management.BookingForm.{BookingData}
use gbc_smart_management.Bookings.{to_booking}
use gbc_smart_management.Api.{create_booking, check_out_of}
use gbc_smart_management.Backend.Rows.{Row, active, is_live, is_in_window, insert_row}
use gbc_smart_management.Backend.Days.{day_start, day_end}
use gbc_smart_management.Backend.Bookings.{
  Venue, CreateInput, at, Circumstances, ok, check_create, write_create, parse_times, read_time,
  overlap_check, emit_timeline, config_read,
}
use gbc_smart_management.Backend.Handlers.{handle_create, then_write}
use gbc_smart_management.Backend.Acceptance.{as_input}
use gbc_smart_management.Backend.Listing.{on_date, handle_timeline, raw_of, listed}
use gbc_smart_management.Backend.Listing.Rows.{handle_timeline-Any, Any-listed}

-- The row has what the body says, and is the last of the rows.
record IsStored (key : String) (d : CreateInput) (start end : ℕ) (before after : List Row) (r : Row)
    : Type 0 where
  own_id : r.id ≡ key
  own_table_id : r.table_id ≡ d.table_id
  own_booker_name : r.booker_name ≡ d.booker_name
  own_booker_mobile : r.booker_mobile ≡ d.booker_mobile
  own_check_in : r.check_in ≡ start
  own_check_out : r.check_out ≡ end
  own_amount : r.amount ≡ d.amount
  own_is_paid : r.is_paid ≡ d.is_paid
  own_status : r.status ≡ active
  own_rows : after ≡ before ++ r ∷ []

handle_create-IsStored :
    (zone : ℕ) (e : Circumstances) (id by role : String) (d : CreateInput) (v : Venue)
    (start end : ℕ) (r : Row)
    → d.check_in ≡ at start
    → d.check_out ≡ at end
    → (handle_create zone e id (some d) by role v).0 ≡ ok r
    → IsStored id d start end v.rows (handle_create zone e id (some d) by role v).1.rows r
unfolding handle_create then_write check_create parse_times read_time overlap_check write_create
    emit_timeline insert_row
handle_create-IsStored zone e id by role d v start end r from to done = ground arith

sent_out : (start n : ℕ) → check_out_of start (pos n) ≡ start + n
unfolding check_out_of ◌+ℤ◌
sent_out start n = ground arith

module _ (d : BookingData) (n a : ℕ) (timed : d.duration ≡ pos n) (priced : d.amount ≡ pos a)
    (named : is_empty d.player ≡ false) (id : String) (before after : List Row) (r : Row)
    (s : IsStored id
      (as_input (create_booking d))
      d.start_time
      (d.start_time + n)
      before
      after
      r) where
  stored_booking : to_booking (raw_of r) ≡ record {
    booking_id = id;
    table_id = d.table_id;
    player = d.player;
    mobile = d.mobile;
    start_time = d.start_time;
    duration = n;
    amount = a;
    paid = d.paid;
  }
  unfolding to_booking raw_of as_input create_booking
  stored_booking = ground (
    arith, s.own_id, s.own_table_id, s.own_booker_name, s.own_booker_mobile, s.own_check_in,
    s.own_check_out, s.own_amount, s.own_is_paid,
  )

  stored-is_in_window :
      (start end : ℕ)
      → d.start_time < end
      → start < d.start_time + n
      → is_in_window start end r ≡ true
  unfolding is_in_window is_live
  stored-is_in_window start end early late =
      ground (arith, s.own_status, s.own_check_in, s.own_check_out)

-- A booking that was confirmed with a name and an amount and a duration that are not negative, and that
-- the server accepts: each request for the timeline of a day whose hours it meets, which comes next and which the
-- database answers, lists it on the page with its table, its player, its mobile number, its
-- times, its amount and whether it is paid, under the id that it was given.
pub created_booking_is_listed :
    (zone date : ℕ) (e e' : Circumstances) (id by role : String) (d : BookingData) (v : Venue)
    (duration amount : ℕ) (r : Row) (rows : List Row)
    → d.duration ≡ pos duration
    → d.amount ≡ pos amount
    → is_empty d.player ≡ false
    → let answer = handle_create zone e id (some (as_input (create_booking d))) by role v in
      answer.0 ≡ ok r
      → handle_timeline zone e' (on_date date) answer.1 ≡ ok rows
      → let c = config_read e' answer.1 in
        d.start_time < day_end zone date c
        → day_start zone date c < d.start_time + duration
        → Any
            (λ b. b ≡ record {
              booking_id = id;
              table_id = d.table_id;
              player = d.player;
              mobile = d.mobile;
              start_time = d.start_time;
              duration = duration;
              amount = amount;
              paid = d.paid;
            })
            (listed rows)
unfolding as_input create_booking
created_booking_is_listed zone date e e' id by role d v n a r rows timed priced named done got early
      late =
    let p = create_booking d in
    let after = (handle_create zone e id (some (as_input p)) by role v).1 in
    let out = ap (check_out_of d.start_time) timed ∙ sent_out d.start_time n in
    let s =
      handle_create-IsStored zone e id by role (as_input p) v d.start_time (d.start_time + n) r refl
        (ap at out) done in
    let there =
      subst (Any (λ x. x ≡ r)) (sym s.own_rows)
        (Any-append_right (λ x. x ≡ r) v.rows (r ∷ []) (inl refl)) in
    let window =
      stored-is_in_window d n a timed priced named id v.rows after.rows r s _ _ early late in
    subst (λ b. Any (λ x. x ≡ b) (listed rows))
      (stored_booking d n a timed priced named id v.rows after.rows r s)
      (Any-listed r rows (handle_timeline-Any r zone date e' after rows got window there))
