-- ===== src/Shell/Scrolling.antt =====
-- The scrolling of the page behind a dialog.
use gbc_smart_management.Base.{ℕ, true, false, ◌≡◌, refl, Any, inl, inr}
use gbc_smart_management.Shell.{Dialogs, mount_dialog, change_dialog}

-- A dialog that opens holds the scrolling; but when another dialog is mounted closed after it, as the one
-- of a booking that arrives is, the scrolling is free again, though the first is still open.
pub closed_dialog_frees_scrolling :
    (s : Dialogs) (i j : ℕ)
    → let shown = change_dialog i true s in
      let arrived = mount_dialog j false shown in
      (shown.held ≡ true)
      × (arrived.held ≡ false)
      × Any (λ m. m ≡ record { id = i; is_open = true }) arrived.mounted
unfolding change_dialog mount_dialog
closed_dialog_frees_scrolling s i j = (refl, refl, inr (inl refl))
