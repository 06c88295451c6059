-- ===== src/Summaries.antt =====
-- frontend/src/pages/Bookings.jsx: the card of a table, `TableSummaryCard`.
pub mod Redraw
use gbc_smart_management.Base.{
  ℕ, ◌+◌, ◌-◌, ◌==◌, Bool, true, false, not, ◌&&◌, ◌||◌, if◌then◌else◌, Option, none, some, str_eq,
  Text, codes, is_empty, filter_by, decimal, is_space, ◌++◌, ◌/◌,
}
use gbc_smart_management.Timeline.{end_time}
use gbc_smart_management.Store.{CurrentBooking, TableState}

-- `tablePropsAreEqual`
unfoldable pub same_booking : Option CurrentBooking → Option CurrentBooking → Bool
same_booking none none = true
same_booking none (some b) = false
same_booking (some a) none = false
same_booking (some a) (some b) =
    str_eq a.booking_id b.booking_id
    && (a.is_paid || not b.is_paid)
    && (b.is_paid || not a.is_paid)
    && a.amount == b.amount

unfoldable pub table_props_are_equal : TableState → TableState → Bool
table_props_are_equal prev next =
    str_eq prev.status next.status && same_booking prev.current_booking next.current_booking

-- The texts and the link of `TableSummaryCard`. The times are those that it shows, `none` for `--:--`.
pub data SummaryCard : Type 0 where
  in_play :
      (table_id : ℕ) (href : Option Text) (paid_text : Text) (amount : ℕ) (player mobile : Text)
      (start_time end_time : Option ℕ)
      → SummaryCard
  ready : (table_id : ℕ) (href : Option Text) (is_busy : Bool) (table_name : Text) → SummaryCard

abbrev pub or_walk_in : Text → Text
or_walk_in name = if is_empty name then codes "Walk-in" else name

unfoldable pub tel_link : Text → Option Text
tel_link mobile =
    if is_empty mobile
    then none
    else some (codes "tel:" ++ filter_by (λ c. not (is_space c)) mobile)

-- A time of the epoch itself is shown as none.
abbrev pub shown_time : Option ℕ → Option ℕ
shown_time none = none
shown_time (some t) = if t == 0 then none else some t

unfoldable pub summary_card : TableState → SummaryCard
summary_card t =
    let busy = str_eq t.status "BUSY" in
    let name =
      if is_empty t.table_name then codes "Table 0" ++ decimal t.table_id else t.table_name in
    elim t.current_booking [
      | none ↦ ready t.table_id none busy name
      | some c ↦
          if busy
          then in_play t.table_id (tel_link c.booker_mobile)
              (if c.is_paid then codes "Paid" else codes "Unpaid") (c.amount / 100)
              (or_walk_in c.booker_name) c.booker_mobile (shown_time c.check_in_time)
              (shown_time c.check_out_time)
          else ready t.table_id none busy name
    ]
