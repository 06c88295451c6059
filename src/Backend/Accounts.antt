-- ===== src/Backend/Accounts.antt =====
-- backend/internal/handler/user_handler.go: the changes of the accounts, which Firebase keeps. It is a parameter.
pub mod Listed
use gbc_smart_management.Base.{
  Bool, true, false, ◌||◌, Option, none, some, String, str_eq, if◌then◌else◌, not, ◌&&◌,
}
use gbc_smart_management.Backend.Bookings.{Answer, ok, failed}

-- The calls of Firebase, which fail or leave other accounts behind, and the roles that accounts have: none
-- where there is no such account, and the empty text for no role.
pub record Firebase (A : Type 0) : Type 0 where
  pub set_custom_user_claims : String → String → A → Option A
  pub delete_account : String → A → Option A
  pub roles : A → String → Option String

unfoldable pub is_valid_role : String → Bool
is_valid_role r = str_eq r "admin" || str_eq r "staff" || str_eq r "tv" || str_eq r ""

unfoldable pub account_answer : {A : Type 0} → Option A → A → Answer String × A
account_answer none a = (failed 500, a)
account_answer (some b) a = (ok "done", b)

module _ {A : Type 0} (firebase : Firebase A) where
  -- `SetRole`, of a body that is `none` where it cannot be parsed.
  unfoldable pub handle_set_role : String → Option String → A → Answer String × A
  handle_set_role uid none a = (failed 400, a)
  handle_set_role uid (some role) a =
      if not (str_eq uid "") && is_valid_role role
      then account_answer (firebase.set_custom_user_claims uid role a) a
      else (failed 400, a)

  -- `DeleteUser`
  unfoldable pub handle_delete_user : String → String → A → Answer String × A
  handle_delete_user caller uid a =
      if not (str_eq uid "") && not (str_eq uid caller)
      then account_answer (firebase.delete_account uid a) a
      else (failed 400, a)
