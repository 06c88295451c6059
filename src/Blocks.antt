-- ===== src/Blocks.antt =====
-- frontend/src/components/timeline/BookingBlock.jsx: the popup of a booking and its two actions.
pub mod Actions
pub mod View
use gbc_smart_management.Base.{
  ℕ, ltb, Bool, true, false, not, ◌||◌, if◌then◌else◌, List, [], ◌∷◌, Option, none, some, String,
}
use gbc_smart_management.Timeline.{Booking}

-- The popup of a block: `isUpdating`, and `showModal`.
pub record Block : Type 0 where
  pub is_updating : Bool
  pub show_modal : Bool

-- The calls of the server that an action makes.
pub data Call : Type 0 where
  update_paid : String → Bool → Call
  cancel : String → Call

-- `handleTogglePaid` and `handleCancelBooking`, up to the `await`: the call, if one is made.
unfoldable pub toggle_paid : Booking → Block → Option Call
toggle_paid b s = if s.is_updating then none else some (update_paid b.booking_id (not b.paid))

unfoldable pub cancel_booking : ℕ → Booking → Block → Option Call
cancel_booking now b s =
    if s.is_updating || ltb b.start_time now then none else some (cancel b.booking_id)

-- The block while the call is under way, and behind it; a booking that was cancelled closes the popup.
unfoldable pub calling : Option Call → Block → Block
calling none s = s
calling (some c) s = record s { is_updating = true }

unfoldable pub call_ends : Call → Bool → Block → Block
call_ends (update_paid id b) succeeded s = record s { is_updating = false }
call_ends (cancel id) succeeded s = record {
  is_updating = false;
  show_modal = if succeeded then false else s.show_modal;
}

-- What a click or an answer of the server does, with the calls under way. `edits` is the button that
-- hands the booking to `onEditBooking` of the page.
pub record BlockRun : Type 0 where
  pub block : Block
  pub under_way : List Call

pub data BlockEvent : Type 0 where
  opens : BlockEvent
  closes : BlockEvent
  edits : BlockEvent
  clicks_paid : Booking → BlockEvent
  clicks_cancel : ℕ → Booking → BlockEvent
  answers : Bool → BlockEvent

abbrev pub add_call : Option Call → List Call → List Call
add_call none cs = cs
add_call (some c) cs = c ∷ cs

unfoldable pub start_call : Option Call → BlockRun → BlockRun
start_call c r = record { block = calling c r.block; under_way = add_call c r.under_way }

unfoldable pub first_answer : Bool → List Call → Block → BlockRun
first_answer succeeded [] s = record { block = s; under_way = [] }
first_answer succeeded (c ∷ cs) s = record { block = call_ends c succeeded s; under_way = cs }

unfoldable pub block_step : BlockEvent → BlockRun → BlockRun
block_step opens r = record r { block = record (r.block) { show_modal = true } }
block_step closes r = record r { block = record (r.block) { show_modal = false } }
block_step edits r = record r { block = record (r.block) { show_modal = false } }
block_step (clicks_paid b) r = start_call (toggle_paid b r.block) r
block_step (clicks_cancel now b) r = start_call (cancel_booking now b r.block) r
block_step (answers succeeded) r = first_answer succeeded r.under_way r.block
