-- ===== src/Summaries/Redraw.antt =====
-- When the card of a table is drawn again.
use gbc_smart_management.Base.{ℕ, ==_iff, true, Option, some, str_eq, eq_iff, ◌≡◌, ◌≢◌, arith}
use gbc_smart_management.Store.{CurrentBooking, TableState}
use gbc_smart_management.Summaries.{same_booking, table_props_are_equal, summary_card}

-- The table with other times for its session.
pub retimed : TableState → CurrentBooking → Option ℕ → Option ℕ → TableState
retimed t c check_in check_out = record t {
  current_booking = some (record c { check_in_time = check_in; check_out_time = check_out });
}

-- `React.memo` draws a card again only where the properties differ. When the times of a session change
-- and its amount does not, they count as equal, though the card shows the times: a card of a busy table
-- keeps the old ones.
pub retimed_card_is_not_drawn_again :
    (t : TableState) (c : CurrentBooking) (start finish new_start new_finish : ℕ)
    → str_eq t.status "BUSY" ≡ true
    → new_finish ≢ finish
    → new_finish ≢ 0
    → let before = retimed t c (some start) (some finish) in
      let after = retimed t c (some new_start) (some new_finish) in
      (table_props_are_equal before after ≡ true) × (summary_card before ≢ summary_card after)
unfolding retimed
retimed_card_is_not_drawn_again t c start finish new_start new_finish busy h z = (equal, differ)
  where
    equal :
        table_props_are_equal
          (retimed t c (some start) (some finish))
          (retimed t c (some new_start) (some new_finish))
        ≡ true
    equal =
        unfold table_props_are_equal same_booking in
        ground (
          arith,
          eq_iff t.status t.status,
          eq_iff c.booking_id c.booking_id,
          ==_iff c.amount c.amount,
        )

    differ :
        summary_card (retimed t c (some start) (some finish))
        ≢ summary_card (retimed t c (some new_start) (some new_finish))
    differ = unfold summary_card in rw busy (ground arith)
