-- ===== src/Bookings/Dialog.antt =====
-- The rest of the bookings page: the settings it loads once, the delay of its timeline, and the form
-- that it opens on a free slot or on a booking, with the requests that the form makes.
use gbc_smart_management.Base.{
  ℕ, Bool, true, false, List, [], ◌∷◌, Option, none, some, String, if◌then◌else◌, get_elem?,
  erase_idx,
}
use gbc_smart_management.Config.{GlobalConfig}
use gbc_smart_management.Store.{Store, set_global_config}
use gbc_smart_management.Timeline.{Booking}
use gbc_smart_management.Slots.{Slot}
use gbc_smart_management.BookingForm.{BookingData, Target, edit, create}

-- `loadConfig`, when its request ends. It is called only where the store has no settings; there is no
-- answer where it fails, and no settings in an empty one.
unfoldable pub load_config : Option (Option GlobalConfig) → Store → Store
load_config reply s = elim s.global_config [
  | some c ↦ s
  | none ↦ elim reply [ none ↦ s | some none ↦ s | some (some c) ↦ set_global_config (some c) s ]
]

-- What a click on a free slot hands over.
pub record OpenSlot : Type 0 where
  pub table_id : ℕ
  pub slot : Slot

-- A request that the form has made: what it sends, and for an update the booking it is for.
pub data PageCall : Type 0 where
  creates : BookingData → PageCall
  updates : String → BookingData → PageCall

-- The state of the page around its form, with the requests under way, the latest first.
pub record Page : Type 0 where
  pub selected_slot : Option OpenSlot
  pub editing_booking : Option Booking
  pub show_timeline : Bool
  pub calls : List PageCall

unfoldable pub initial_page : Page
initial_page = record {
  selected_slot = none;
  editing_booking = none;
  show_timeline = false;
  calls = [];
}

-- The timer of the effect that delays the timeline, which is set only with settings.
unfoldable pub timeline_due : Store → Page → Page
timeline_due s p = elim s.global_config [ none ↦ p | some c ↦ record p { show_timeline = true } ]

-- `isOpen` of the form.
unfoldable pub is_open : Page → Bool
is_open p = elim p.selected_slot [
  | some o ↦ true
  | none ↦ elim p.editing_booking [ some b ↦ true | none ↦ false ]
]

-- `existingBooking` goes before `slot`.
unfoldable pub form_target : Page → Option Target
form_target p = elim p.editing_booking [
  | some b ↦ some (edit b)
  | none ↦ elim p.selected_slot [ some o ↦ some (create o.table_id o.slot) | none ↦ none ]
]

unfoldable pub slot_clicked : OpenSlot → Page → Page
slot_clicked o p = record p { selected_slot = some o }

unfoldable pub edit_clicked : Booking → Page → Page
edit_clicked b p = record p { editing_booking = some b }

-- `onClose`
unfoldable pub close_form : Page → Page
close_form p = record p { selected_slot = none; editing_booking = none }

-- `onConfirm`: a request of `handleUpdateBooking` or `handleCreateBooking` begins.
unfoldable pub call_of : Page → BookingData → PageCall
call_of p d = elim p.editing_booking [ some b ↦ updates b.booking_id d | none ↦ creates d ]

-- `handleConfirm` of the form: `onConfirm`, then `onClose`.
unfoldable pub confirm : BookingData → Page → Page
confirm d p = close_form (record p { calls = call_of p d ∷ p.calls })

-- The rest of `handleCreateBooking` and `handleUpdateBooking`; an error is only logged.
unfoldable pub call_succeeds : PageCall → Page → Page
call_succeeds (creates d) p = record p { selected_slot = none }
call_succeeds (updates id d) p = record p { editing_booking = none }

-- The request at a place of the list ends.
unfoldable pub call_ended : ℕ → Bool → Page → Page
call_ended n ok p =
    let rest : Page = record p { calls = erase_idx p.calls n } in
    elim (get_elem? p.calls n) [ none ↦ p | some c ↦ if ok then call_succeeds c rest else rest ]
