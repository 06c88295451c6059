-- ===== src/Users.antt =====
-- frontend/src/pages/Admin.jsx, the list of users, over api/users.js: the state of the component and
-- its handlers. A request that waits carries the list that its handler was drawn with.
pub mod Dates
pub mod Directory
use gbc_smart_management.Base.{
  ℕ, Bool, true, false, not, List, [], ◌∷◌, ◌++◌, map, Option, none, some, String, str_eq,
  if◌then◌else◌, filter_by, text_or,
}
use gbc_smart_management.Users.Dates.{DateText, format_unix_ms, format_unix_ms_relative}

-- A user as the server lists it.
pub record ListedUser : Type 0 where
  pub uid : String
  pub email : Option String
  pub display_name : Option String
  pub photo_url : Option String
  pub role : Option String
  pub creation_time : Option ℕ
  pub last_sign_in_time : Option ℕ

-- The component's state, and the alerts it has shown, the latest first.
pub record UserList : Type 0 where
  pub users : List ListedUser
  pub is_loading : Bool
  pub error : String
  pub updating_user : Option String
  pub alerts : List String

unfoldable pub initial_list : UserList
initial_list = record {
  users = [];
  is_loading = true;
  error = "";
  updating_user = none;
  alerts = [];
}

-- `data.users || []`
unfoldable pub users_or_none : Option (List ListedUser) → List ListedUser
users_or_none none = []
users_or_none (some us) = us

-- `fetchUsers`, when its request ends: with the server's answer, or `none` where it fails.
unfoldable pub users_fetched : Option (Option (List ListedUser)) → UserList → UserList
users_fetched none s = record s { error = "Failed to load users."; is_loading = false }
users_fetched (some us) s = record s { users = users_or_none us; is_loading = false }

-- A request of `handleRoleChange` or `handleDelete` that waits for its answer, with `users` of the
-- drawing whose handler was called.
pub data UserCall : Type 0 where
  role_change : String → String → List ListedUser → UserCall
  deletion : String → List ListedUser → UserCall

-- `handleRoleChange` and `handleDelete` up to their request; the answer to `window.confirm` is given.
unfoldable pub start_role_change : String → String → UserList → UserList × UserCall
start_role_change uid role s = (record s { updating_user = some uid }, role_change uid role s.users)

unfoldable pub start_delete : Bool → String → UserList → UserList × Option UserCall
start_delete false uid s = (s, none)
start_delete true uid s = (record s { updating_user = some uid }, some (deletion uid s.users))

-- `users.map(...)`
unfoldable pub with_role : String → String → ListedUser → ListedUser
with_role uid role u = if str_eq u.uid uid then record u { role = some role } else u

unfoldable pub set_role_in : String → String → List ListedUser → List ListedUser
set_role_in uid role us = map (with_role uid role) us

-- `users.filter(...)`
unfoldable pub remove_user : String → List ListedUser → List ListedUser
remove_user uid us = filter_by (λ u. not (str_eq u.uid uid)) us

-- The rest of the two handlers, after the answer; `false` is a request that fails.
unfoldable pub call_answered : Bool → UserCall → UserList → UserList
call_answered true (role_change uid role us) s = record s {
  users = set_role_in uid role us;
  updating_user = none;
}
call_answered false (role_change uid role us) s = record s {
  alerts = "Failed to update user role." ∷ s.alerts;
  updating_user = none;
}
call_answered true (deletion uid us) s = record s {
  users = remove_user uid us;
  updating_user = none;
}
call_answered false (deletion uid us) s = record s {
  alerts = "Failed to delete user." ∷ s.alerts;
  updating_user = none;
}

-- Whether the controls of a row are disabled, and its spinner shown.
unfoldable pub is_updating : UserList → String → Bool
is_updating s uid = elim s.updating_user [ none ↦ false | some u ↦ str_eq u uid ]

-- The picture of a row: an image with its text, or the first letter, in upper case, of a text.
pub data Avatar : Type 0 where
  photo : String → String → Avatar
  initial_of : Option String → Avatar

unfoldable pub avatar_of : ListedUser → Avatar
avatar_of u =
    if str_eq (text_or u.photo_url "") ""
    then (if str_eq (text_or u.display_name "") ""
        then initial_of u.email
        else initial_of u.display_name)
    else photo (text_or u.photo_url "") (text_or u.display_name "User")

-- What a row shows, with the name that the question before a deletion has.
pub record UserRow : Type 0 where
  pub avatar : Avatar
  pub name : String
  pub address : String
  pub joined : DateText
  pub last_active : DateText
  pub selected_role : String
  pub disabled : Bool
  pub asked_name : String

unfoldable pub user_row : ℕ → UserList → ListedUser → UserRow
user_row now s u = record {
  avatar = avatar_of u;
  name = text_or u.display_name "Unnamed User";
  address = text_or u.email "";
  joined = format_unix_ms u.creation_time;
  last_active = format_unix_ms_relative now u.last_sign_in_time;
  selected_role = text_or u.role "";
  disabled = is_updating s u.uid;
  asked_name = text_or u.display_name (text_or u.email "this user");
}

-- What the component renders.
pub data UsersView : Type 0 where
  loading_users : UsersView
  failed_users : String → UsersView
  no_users : UsersView
  rows : List UserRow → UsersView

unfoldable pub view_users : ℕ → UserList → UsersView
view_users now s =
    if s.is_loading
    then loading_users
    else if not (str_eq s.error "")
    then failed_users s.error
    else elim s.users [ [] ↦ no_users | u ∷ us ↦ rows (map (user_row now s) (u ∷ us)) ]
