-- ===== src/Server/Paths.antt =====
-- The addresses that the frontend requests are those of the server's routes.
use text.Mathlib.TextLemmas.{append-nil, append_assoc}
use gbc_smart_management.Base.{String, str_append, List, [], ◌∷◌, ◌≡◌, ◌∙◌, refl, sym}
use gbc_smart_management.Api.Requests.{
  ApiCall, creates_booking, updates_booking, cancels_booking, gets_timeline, gets_config,
  updates_config, gets_health, toggles_light, lists_users, sets_role, deletes_user, request, bare,
  create_request, update_request, cancel_request, timeline_request, config_request,
  update_config_request, health_request, toggle_request, list_users_request, set_role_request,
  delete_user_request,
}
use gbc_smart_management.Server.{
  Segment, literal, parameter, Endpoint, create_route, timeline_route, update_route, cancel_route,
  toggle_route, hardware_route, config_route, update_config_route, list_users_route, set_role_route,
  delete_user_route, method_of, pattern_of,
}

-- The route that a call is meant for.
unfoldable pub endpoint_of : ApiCall → Endpoint
endpoint_of (creates_booking d) = create_route
endpoint_of (updates_booking id u) = update_route
endpoint_of (cancels_booking id) = cancel_route
endpoint_of (gets_timeline date) = timeline_route
endpoint_of gets_config = config_route
endpoint_of (updates_config c) = update_config_route
endpoint_of gets_health = hardware_route
endpoint_of (toggles_light id t) = toggle_route
endpoint_of (lists_users n token) = list_users_route
endpoint_of (sets_role uid role) = set_role_route
endpoint_of (deletes_user uid) = delete_user_route

-- The path that a pattern has for a parameter, behind what has been read of it.
path_of : String → List Segment → String → String
path_of read [] value = read
path_of read (literal s ∷ ss) value = path_of (str_append read (str_append "/" s)) ss value
path_of read (parameter ∷ ss) value = path_of (str_append (str_append read "/") value) ss value

-- The parameter in the path of a call, and what follows the path.
value_of : ApiCall → String
value_of (creates_booking d) = ""
value_of (updates_booking id u) = id
value_of (cancels_booking id) = id
value_of (gets_timeline date) = ""
value_of gets_config = ""
value_of (updates_config c) = ""
value_of gets_health = ""
value_of (toggles_light id t) = ""
value_of (lists_users n token) = ""
value_of (sets_role uid role) = uid
value_of (deletes_user uid) = uid

query_of : ApiCall → String
query_of (creates_booking d) = ""
query_of (updates_booking id u) = ""
query_of (cancels_booking id) = ""
query_of (gets_timeline date) = str_append "?date=" date
query_of gets_config = ""
query_of (updates_config c) = ""
query_of gets_health = ""
query_of (toggles_light id t) = ""
query_of (lists_users n token) = ""
query_of (sets_role uid role) = ""
query_of (deletes_user uid) = ""

-- A call requests the path of its route, with its parameter, and a query behind it, by the method of
-- the route.
request_fits :
    (c : ApiCall)
    → ((request c).method ≡ method_of (endpoint_of c))
      × ((request c).address
          ≡ str_append (path_of "" (pattern_of (endpoint_of c)) (value_of c)) (query_of c))
unfolding create_request update_request cancel_request timeline_request config_request
    update_config_request health_request toggle_request list_users_request set_role_request
    delete_user_request bare method_of pattern_of endpoint_of path_of value_of query_of
request_fits (creates_booking d) = (refl, refl)
request_fits (updates_booking id u) = (refl, sym (append-nil (str_append "/api/bookings/" id)))
request_fits (cancels_booking id) = (refl, sym (append-nil (str_append "/api/bookings/" id)))
request_fits (gets_timeline date) = (refl, append_assoc "/api/bookings/timeline" "?date=" date)
request_fits gets_config = (refl, refl)
request_fits (updates_config c) = (refl, refl)
request_fits gets_health = (refl, refl)
request_fits (toggles_light id t) = (refl, refl)
request_fits (lists_users n token) = (refl, refl)
request_fits (sets_role uid role) =
    (refl, sym (append_assoc "/api/users/" uid "/role") ∙ sym (append-nil _))
request_fits (deletes_user uid) = (refl, sym (append-nil (str_append "/api/users/" uid)))
