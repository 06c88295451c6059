-- ===== src/Drawing.antt =====
-- frontend/src/components/timeline/BookingTimeline.jsx, with the parts of TimelineRow.jsx and
-- CurrentTimeLine.jsx that draw: what stands where on the timeline. Lengths are in pixels.
pub mod Clock
pub mod Durations
pub mod Placement
use gbc_smart_management.Base.{
  ℕ, suc, ◌+◌, ◌-◌, ◌*◌, ◌/◌, ◌%◌, ◌==◌, ltb, max, ℤ, pos, negsuc, pos_part, ◌+ℤ◌, ◌-ℤ◌, ltb_ℤ,
  Bool, true, false, not, List, [], ◌∷◌, map, filter_by, Option, none, some, Text, codes, decimal,
  ◌++◌, length, if◌then◌else◌,
}
use gbc_smart_management.Store.{TableState}
use gbc_smart_management.Config.{GlobalConfig, open_hour_of, close_hour_of}
use gbc_smart_management.Timeline.{
  Booking, Mark, hour, quarter, half, left, time_to_pixels, duration_to_pixels, dynamic_close_hour,
  timeline_headers, total_timeline_width, pixels_per_minute,
}
use gbc_smart_management.Slots.{Slot, free_slots}
use gbc_smart_management.Bookings.Dialog.{OpenSlot}
use gbc_smart_management.Drawing.Durations.{duration_text}

-- A mark of the header: where it stands, its label if it has one, how far the label is moved aside,
-- and the height of the tick.
pub data Shift : Type 0 where
  to_right to_left unmoved : Shift

pub record HeaderMark : Type 0 where
  pub x : ℕ
  pub label : Option Text
  pub shift : Shift
  pub tick : ℕ

unfoldable pub shift_of : ℕ → ℤ → Shift
shift_of x total =
    if x == 0 then to_right else if ltb_ℤ (pos x) total then unmoved else at_end x total
  where
    at_end : ℕ → ℤ → Shift
    at_end x total = if ltb_ℤ total (pos x) then unmoved else to_left

unfoldable pub header_mark : ℤ → Mark → HeaderMark
header_mark total (hour label x) = record {
  x = x;
  label = some label;
  shift = shift_of x total;
  tick = 18;
}
header_mark total (half x) = record { x = x; label = none; shift = unmoved; tick = 14 }
header_mark total (quarter x) = record { x = x; label = none; shift = unmoved; tick = 6 }

-- `Array.from({ length: (closeHour - TIMELINE_CONFIG.OPEN_HOUR) * 2 })`, of the opening hour that
-- TIMELINE_CONFIG has; where it has none, the length is NaN and the list is empty.
unfoldable pub grid_lines : Option ℕ → ℕ → ℕ
grid_lines none close_hour = 0
grid_lines (some open_hour) close_hour = (close_hour - open_hour) * 2

-- `OPEN_HOUR` of TIMELINE_CONFIG, which has only the two other entries.
abbrev pub config_open_hour : Option ℕ
config_open_hour = none

-- FreeSlotButton: its place, its title, and its text, which a narrow one shortens or leaves out.
pub record SlotButton : Type 0 where
  pub left : ℤ
  pub width : ℕ
  pub title : Text
  pub text : Option Text
  pub opens : OpenSlot

abbrev pub book_slot : Text → Text
book_slot duration = codes "Book Slot (" ++ duration ++ codes ")"

unfoldable pub button_text : ℕ → Text → Option Text
button_text width duration =
    if ltb 60 width then some (if ltb 120 width then book_slot duration else duration) else none

-- `tie_up` tells which way `toFixed` rounds a duration that lies between two tenths of an hour.
unfoldable pub slot_button : (ℕ → Bool) → ℕ → ℕ → ℕ → ℕ → Slot → SlotButton
slot_button tie_up zone open_hour now table_id s = record {
  left = time_to_pixels zone s.start_timestamp open_hour now;
  width = duration_to_pixels s.duration_ms;
  title = book_slot (duration_text tie_up s.duration_ms);
  text = button_text (duration_to_pixels s.duration_ms) (duration_text tie_up s.duration_ms);
  opens = record { table_id = table_id; slot = s };
}

-- TimelineRow: the bookings of the table, and its free slots at the clock's time.
pub record Row : Type 0 where
  pub table_id : ℕ
  pub blocks : List Booking
  pub buttons : List SlotButton

unfoldable pub row_of : (ℕ → Bool) → ℕ → ℕ → ℕ → ℕ → ℕ → List Booking → TableState → Row
row_of tie_up zone now open_hour close_hour current_time bookings t =
    let own = filter_by (λ b. b.table_id == t.table_id) bookings in
    record {
      table_id = t.table_id;
      blocks = own;
      buttons =
          map (slot_button tie_up zone open_hour now t.table_id)
            (free_slots zone now own close_hour current_time open_hour);
    }

-- CurrentTimeLine: where the line of the current time stands, once its effect has run.
unfoldable pub current_line : ℕ → ℕ → ℕ → ℕ → Option ℤ
current_line zone current_time open_hour now =
    let offset = time_to_pixels zone current_time open_hour now in
    if ltb_ℤ offset (pos 0) then none else some offset

-- Its scrolling: the left edge of the view, in halves of a pixel, for a view of the given width.
unfoldable pub scroll_left : ℤ → ℕ → ℕ
scroll_left offset width = pos_part (offset +ℤ offset -ℤ pos width)

-- What BookingTimeline draws; `none` where the settings have an hour that is NaN.
pub record Drawing : Type 0 where
  pub total : ℤ
  pub marks : List HeaderMark
  pub lines : ℕ
  pub current : Option ℤ
  pub table_rows : List Row

unfoldable pub drawing_at :
    (ℕ → Bool) → ℕ → ℕ → ℕ → ℕ → ℕ → List Booking → List TableState → Drawing
drawing_at tie_up zone now current_time open_hour close_hour bookings tables = record {
  total = total_timeline_width open_hour close_hour;
  marks =
      map (header_mark (total_timeline_width open_hour close_hour))
        (timeline_headers open_hour close_hour);
  lines = grid_lines config_open_hour close_hour;
  current = current_line zone current_time open_hour now;
  table_rows = map (row_of tie_up zone now open_hour close_hour current_time bookings) tables;
}

unfoldable pub drawing :
    (ℕ → Bool) → ℕ → ℕ → ℕ → Option GlobalConfig → List Booking → List TableState → Option Drawing
drawing tie_up zone now current_time config bookings tables = elim (open_hour_of config) [
  | none ↦ none
  | some open_hour ↦ elim (close_hour_of config open_hour) [
    | none ↦ none
    | some base ↦ some (
        drawing_at tie_up zone now current_time open_hour
          (dynamic_close_hour zone bookings open_hour base now) bookings tables)
  ]
]
