-- ===== src/Server.antt =====
-- backend/cmd/server/main.go, the routes under /api, and the middleware that guards them
-- (backend/internal/handler/middleware/auth.go). The check of a token is Firebase's: what it finds
-- stands in the arguments.
pub mod Access
pub mod Paths
use gbc_smart_management.Base.{
  ℕ, Bool, true, false, List, [], ◌∷◌, Option, none, some, String, str_append, str_eq,
  if◌then◌else◌,
}
use gbc_smart_management.Routes.{includes}
use gbc_smart_management.Client.{Authorization}
use gbc_smart_management.Api.Requests.{Method, get, post, patch, remove}

-- A route, by its handler.
pub data Endpoint : Type 0 where
  create_route : Endpoint
  timeline_route : Endpoint
  update_route : Endpoint
  cancel_route : Endpoint
  toggle_route : Endpoint
  hardware_route : Endpoint
  config_route : Endpoint
  update_config_route : Endpoint
  list_users_route : Endpoint
  set_role_route : Endpoint
  delete_user_route : Endpoint

-- The part of a pattern between two slashes: a literal, or a parameter.
pub data Segment : Type 0 where
  literal : String → Segment
  parameter : Segment

unfoldable pub method_of : Endpoint → Method
method_of create_route = post
method_of timeline_route = get
method_of update_route = patch
method_of cancel_route = remove
method_of toggle_route = post
method_of hardware_route = get
method_of config_route = get
method_of update_config_route = patch
method_of list_users_route = get
method_of set_role_route = patch
method_of delete_user_route = remove

unfoldable pub pattern_of : Endpoint → List Segment
pattern_of create_route = literal "api" ∷ literal "bookings" ∷ []
pattern_of timeline_route = literal "api" ∷ literal "bookings" ∷ literal "timeline" ∷ []
pattern_of update_route = literal "api" ∷ literal "bookings" ∷ parameter ∷ []
pattern_of cancel_route = literal "api" ∷ literal "bookings" ∷ parameter ∷ []
pattern_of toggle_route = literal "api" ∷ literal "lights" ∷ literal "toggle" ∷ []
pattern_of hardware_route = literal "api" ∷ literal "hardware" ∷ literal "health" ∷ []
pattern_of config_route = literal "api" ∷ literal "configs" ∷ []
pattern_of update_config_route = literal "api" ∷ literal "configs" ∷ []
pattern_of list_users_route = literal "api" ∷ literal "users" ∷ []
pattern_of set_role_route = literal "api" ∷ literal "users" ∷ parameter ∷ literal "role" ∷ []
pattern_of delete_user_route = literal "api" ∷ literal "users" ∷ parameter ∷ []

-- The roles of `RequireRole` before the handler; `none` where a route has no such guard.
unfoldable pub required_roles : Endpoint → Option (List String)
required_roles create_route = some ("admin" ∷ "staff" ∷ [])
required_roles timeline_route = some ("admin" ∷ "staff" ∷ [])
required_roles update_route = some ("admin" ∷ "staff" ∷ [])
required_roles cancel_route = some ("admin" ∷ "staff" ∷ [])
required_roles toggle_route = some ("admin" ∷ "staff" ∷ [])
required_roles hardware_route = some ("admin" ∷ "staff" ∷ [])
required_roles config_route = none
required_roles update_config_route = some ("admin" ∷ [])
required_roles list_users_route = some ("admin" ∷ [])
required_roles set_role_route = some ("admin" ∷ [])
required_roles delete_user_route = some ("admin" ∷ [])

-- What a guard does: it goes on with the user's role, or answers with a status.
pub data Verdict : Type 0 where
  passed : String → Verdict
  denied : ℕ → Verdict

-- `RequireAuth`, of the header and of what the check of its token finds: nothing for a token that is
-- not valid, and else the role among its claims, if there is one.
unfoldable pub require_auth : Authorization → Option (Option String) → Verdict
require_auth none found = denied 401
require_auth (some t) none = denied 401
require_auth (some t) (some none) = denied 403
require_auth (some t) (some (some role)) = if str_eq role "" then denied 403 else passed role

-- `RequireRole`
unfoldable pub require_role : List String → Verdict → Verdict
require_role roles (denied status) = denied status
require_role roles (passed role) = if includes roles role then passed role else denied 403

unfoldable pub guard : Endpoint → Authorization → Option (Option String) → Verdict
guard e h found = elim (required_roles e) [
  | none ↦ require_auth h found
  | some roles ↦ require_role roles (require_auth h found)
]
