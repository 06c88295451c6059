-- ===== src/Tests/Accounts.antt =====
-- The accounts: frontend/src/pages/Admin.jsx and backend/internal/handler/user_handler.go.
use gbc_smart_management.Base.{
  true, ◌≡◌, refl, List, [], ◌∷◌, Option, none, some, String, text_or, Option-cases, inl, inr,
}
use gbc_smart_management.Users.Directory.{
  Directory, directory, change_role, delete_user, apply_command,
}
use gbc_smart_management.Backend.Accounts.{Firebase}
use gbc_smart_management.Backend.Accounts.Listed.{
  Order, sets, deletes, run_orders, listed_users_are_accounts,
}
use gbc_smart_management.Tests.Admin.{staff_list}

-- Firebase with its accounts as a map, which refuses a call for an account that is not there.
abbrev set_claims : String → String → Directory → Option Directory
set_claims uid role d = elim (d uid) [
  | none ↦ none
  | some r ↦ some (apply_command (change_role uid role true) d)
]

abbrev delete_one : String → Directory → Option Directory
delete_one uid d = elim (d uid) [
  | none ↦ none
  | some r ↦ some (apply_command (delete_user true uid true) d)
]

abbrev accounts : Firebase Directory
accounts = record {
  set_custom_user_claims = set_claims;
  delete_account = delete_one;
  roles = λ d. d;
}

set_claims-one :
    (uid role : String) (d e : Directory) (v : String)
    → set_claims uid role d ≡ some e
    → e v ≡ apply_command (change_role uid role true) d v
set_claims-one uid role d e v h = elim (Option-cases (d uid)) [
  | inl gone ↦ cc (rw (set_claims, gone) at h)
  | inr (r, there) ↦ cc (rw (set_claims, there) at h)
]

delete_one-one :
    (uid : String) (d e : Directory) (v : String)
    → delete_one uid d ≡ some e
    → e v ≡ apply_command (delete_user true uid true) d v
delete_one-one uid d e v h = elim (Option-cases (d uid)) [
  | inl gone ↦ cc (rw (delete_one, gone) at h)
  | inr (r, there) ↦ cc (rw (delete_one, there) at h)
]

abbrev three_orders : List Order
three_orders = sets "b" "tv" ∷ deletes true "a" ∷ deletes true "b" ∷ []

listed_users_are_accounts_example :
    let after = run_orders accounts "a" three_orders (staff_list, directory staff_list.users) in
    (directory after.0.users ≡ after.1) × ((r : String) × (after.1 "a" ≡ some r))
unfolding directory text_or
listed_users_are_accounts_example =
    listed_users_are_accounts accounts "a" set_claims-one delete_one-one three_orders staff_list
      (directory staff_list.users) refl ("admin", refl)
