-- ===== src/Api/Requests.antt =====
-- frontend/src/api/: the request that each function sends, and the pages that call it.
use gbc_smart_management.Base.{
  ℕ, List, [], ◌∷◌, Option, none, some, String, str_append, str_eq, if◌then◌else◌,
}
use gbc_smart_management.Config.{GlobalConfig}
use gbc_smart_management.Illumination.{Target}
use gbc_smart_management.BookingForm.{BookingData}
use gbc_smart_management.Routes.{Location, bookings, admin, illumination, hardware}
use gbc_smart_management.Api.{
  CreatePayload, create_booking, UpdatedData, UpdatePayload, update_booking,
}

pub data Method : Type 0 where
  get post patch remove : Method

pub data Body : Type 0 where
  no_body : Body
  booking_body : CreatePayload → Body
  change_body : UpdatePayload → Body
  config_body : GlobalConfig → Body
  light_body : ℕ → Target → Body
  role_body : String → Body

-- The parameters of a request that axios appends to its address.
pub record Params : Type 0 where
  pub max_results : ℕ
  pub page_token : Option String

pub record Request : Type 0 where
  pub method : Method
  pub address : String
  pub params : Option Params
  pub body : Body

-- The calls of the functions.
pub data ApiCall : Type 0 where
  creates_booking : BookingData → ApiCall
  updates_booking : String → UpdatedData → ApiCall
  cancels_booking : String → ApiCall
  gets_timeline : String → ApiCall
  gets_config : ApiCall
  updates_config : GlobalConfig → ApiCall
  gets_health : ApiCall
  toggles_light : ℕ → Target → ApiCall
  lists_users : ℕ → String → ApiCall
  sets_role : String → String → ApiCall
  deletes_user : String → ApiCall

unfoldable pub bare : Method → String → Body → Request
bare m a b = record { method = m; address = a; params = none; body = b }

-- `if (pageToken) params.pageToken = pageToken`
unfoldable pub params_of : ℕ → String → Params
params_of n token = record {
  max_results = n;
  page_token = if str_eq token "" then none else some token;
}

-- api/bookings.js
unfoldable pub create_request : BookingData → Request
create_request d = bare post "/api/bookings" (booking_body (create_booking d))

unfoldable pub update_request : String → UpdatedData → Request
update_request id u = bare patch (str_append "/api/bookings/" id) (change_body (update_booking u))

unfoldable pub cancel_request : String → Request
cancel_request id = bare remove (str_append "/api/bookings/" id) no_body

unfoldable pub timeline_request : String → Request
timeline_request date = bare get (str_append "/api/bookings/timeline?date=" date) no_body

-- api/configs.js, api/hardware.js and api/lights.js
unfoldable pub config_request : Request
config_request = bare get "/api/configs" no_body

unfoldable pub update_config_request : GlobalConfig → Request
update_config_request c = bare patch "/api/configs" (config_body c)

unfoldable pub health_request : Request
health_request = bare get "/api/hardware/health" no_body

unfoldable pub toggle_request : ℕ → Target → Request
toggle_request id t = bare post "/api/lights/toggle" (light_body id t)

-- api/users.js
unfoldable pub list_users_request : ℕ → String → Request
list_users_request n token = record {
  method = get;
  address = "/api/users";
  params = some (params_of n token);
  body = no_body;
}

unfoldable pub set_role_request : String → String → Request
set_role_request uid role =
    bare patch (str_append "/api/users/" (str_append uid "/role")) (role_body role)

unfoldable pub delete_user_request : String → Request
delete_user_request uid = bare remove (str_append "/api/users/" uid) no_body

abbrev pub request : ApiCall → Request
request (creates_booking d) = create_request d
request (updates_booking id u) = update_request id u
request (cancels_booking id) = cancel_request id
request (gets_timeline date) = timeline_request date
request gets_config = config_request
request (updates_config c) = update_config_request c
request gets_health = health_request
request (toggles_light id t) = toggle_request id t
request (lists_users n token) = list_users_request n token
request (sets_role uid role) = set_role_request uid role
request (deletes_user uid) = delete_user_request uid

-- The pages whose code calls the function: pages/Bookings.jsx with BookingBlock.jsx, pages/Admin.jsx,
-- pages/HardwareStatus.jsx and pages/Illumination.jsx.
unfoldable pub pages_of : ApiCall → List Location
pages_of (creates_booking d) = bookings ∷ []
pages_of (updates_booking id u) = bookings ∷ []
pages_of (cancels_booking id) = bookings ∷ []
pages_of (gets_timeline date) = bookings ∷ []
pages_of gets_config = bookings ∷ admin ∷ []
pages_of (updates_config c) = admin ∷ []
pages_of gets_health = hardware ∷ []
pages_of (toggles_light id t) = illumination ∷ []
pages_of (lists_users n token) = admin ∷ []
pages_of (sets_role uid role) = admin ∷ []
pages_of (deletes_user uid) = admin ∷ []
