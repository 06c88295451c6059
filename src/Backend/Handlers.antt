-- ===== src/Backend/Handlers.antt =====
-- backend/internal/handler/booking_handler.go: the handlers of the changes, where no other request comes
-- between the reading and the writing.
use gbc_smart_management.Base.{
  ℕ, leb, Bool, not, ◌&&◌, Option, none, some, String, is_empty, if◌then◌else◌,
}
use gbc_smart_management.Backend.Rows.{Row}
use gbc_smart_management.Backend.Bookings.{
  Venue, CreateInput, UpdateInput, Circumstances, Answer, ok, failed, ◌&>◌, is_given, check_create,
  write_create, fetch_row, check_update, write_update, check_cancel, write_cancel,
}

-- The writing after a check, and nothing where the check fails.
unfoldable pub then_write : Answer Row → (Row → Answer Row × Venue) → Venue → Answer Row × Venue
then_write (ok r) write s = write r
then_write (failed status) write s = (failed status, s)

-- `Create`, with its own checks of the body, which is `none` where it cannot be parsed.
unfoldable pub body_status : CreateInput → Bool
body_status d =
    leb 1 d.table_id
    && leb d.table_id 4
    && not (is_empty d.booker_name)
    && is_given d.check_in
    && is_given d.check_out

unfoldable pub handle_create :
    ℕ → Circumstances → String → Option CreateInput → String → String → Venue → Answer Row × Venue
handle_create zone e id none created_by role s = (failed 400, s)
handle_create zone e id (some d) created_by role s =
    if body_status d
    then then_write (check_create zone e d created_by role s) (λ r. write_create zone e id r s) s
    else (failed 400, s)

unfoldable pub handle_update :
    ℕ → Circumstances → String → Option UpdateInput → Venue → Answer Row × Venue
handle_update zone e id none s = (failed 400, s)
handle_update zone e id (some d) s =
    then_write (fetch_row e id s &> λ b. check_update e id d s) (λ r. write_update zone e r s) s

unfoldable pub handle_cancel : ℕ → Circumstances → String → Venue → Answer Row × Venue
handle_cancel zone e id s =
    then_write (fetch_row e id s &> λ b. check_cancel e id s) (λ r. write_cancel zone e r s) s
