-- ===== src/Bookings/Answers.antt =====
-- What the page makes of the answers to the form's requests.
use gbc_smart_management.Base.{
  ℕ, get_elem?, erase_idx, Option-cases, inl, inr, true, false, none, some, ◌≡◌, refl, sym,
}
use gbc_smart_management.BookingForm.{BookingData, create}
use gbc_smart_management.Bookings.Dialog.{
  OpenSlot, PageCall, creates, updates, Page, is_open, form_target, slot_clicked, close_form,
  call_of, confirm, call_succeeds, call_ended,
}

call_succeeds_closed : (c : PageCall) (p : Page) → call_succeeds c (close_form p) ≡ close_form p
unfolding call_succeeds close_form
call_succeeds_closed (creates d) p = refl
call_succeeds_closed (updates id d) p = refl

call_of_creates : (p : Page) (d : BookingData) → p.editing_booking ≡ none → call_of p d ≡ creates d
unfolding call_of
call_of_creates p d e = rw e refl

-- After a confirmation the form is gone: whichever of the requests under way ends then, the page is the
-- same where it is refused as where it is accepted, and so it does not tell.
pub refusal_is_silent :
    (p : Page) (d : BookingData) (n : ℕ)
    → call_ended n false (confirm d p) ≡ call_ended n true (confirm d p)
unfolding call_ended confirm close_form get_elem?
refusal_is_silent p d n = elim (Option-cases (get_elem? (confirm d p).calls n)) [
  | inl e ↦ rw e refl
  | inr (c, e) ↦
      rw e (sym (call_succeeds_closed c (record p { calls = erase_idx (confirm d p).calls n })))
]

-- With no form open for an edit: while the request for a new booking is under way, another slot is clicked,
-- so that the form is open on it. When the server accepts the request, that form is closed.
pub late_answer_closes_form :
    (p : Page) (d : BookingData) (o : OpenSlot)
    → p.editing_booking ≡ none
    → let opened = slot_clicked o (confirm d p) in
      (form_target opened ≡ some (create o.table_id o.slot))
      × (is_open (call_ended 0 true opened) ≡ false)
unfolding call_ended get_elem? erase_idx confirm close_form call_succeeds call_of slot_clicked
    form_target is_open
late_answer_closes_form p d o e = (refl, rw (call_of_creates p d e) refl)
