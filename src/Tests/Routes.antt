-- ===== src/Tests/Routes.antt =====
-- Routes and their redirections
use gbc_smart_management.Base.{
  All, List, ◌↔◌, ◌≡◌, refl, none, some, String, [], ◌∷◌, true, some_by,
}
use gbc_smart_management.Routes.{
  FirebaseUser, User, user_of, or_null, login, tv_display, bookings, illumination, admin, content,
  navigate, rendered, is_in_layout, route_element, allowed_roles, page, protected_route,
  page_for_role, redirect, effect_at, login_effect, protected_effect, follow,
}
use gbc_smart_management.Routes.Access
use gbc_smart_management.Routes.Access.{HasRoleIn, Claims}
use gbc_smart_management.Routes.Settling
use gbc_smart_management.Api.Requests.{deletes_user, pages_of}
use gbc_smart_management.Server.{
  delete_user_route, required_roles, guard, require_auth, require_role, denied,
}
use gbc_smart_management.Server.Access as ServerAccess
use gbc_smart_management.Server.Access.{IsPassed}
use gbc_smart_management.Server.Paths.{endpoint_of}
use gbc_smart_management.Routes.Settling.{IsSettled}

abbrev guest : FirebaseUser
guest = record { uid = "g"; email = some "g@example.com"; display_name = none; photo_url = none }

abbrev person : String → User
person role = record {
  uid = "p";
  email = some "p@example.com";
  display_name = none;
  photo_url = none;
  role = some role;
}

tv_at_admin : rendered (some (person "tv")) admin ≡ navigate tv_display
unfolding rendered is_in_layout route_element allowed_roles page protected_route page_for_role
    or_null some_by
tv_at_admin = refl

admin_at_login :
    redirect true (redirect true (record { user = some (person "admin"); location = login }))
    ≡ record { user = some (person "admin"); location = bookings }
unfolding redirect effect_at login_effect protected_effect follow tv_at_admin
admin_at_login = refl

abbrev floor_roles : List String
floor_roles = "staff" ∷ "admin" ∷ []

illumination_roles : allowed_roles illumination ≡ some floor_roles
unfolding allowed_roles
illumination_roles = refl

rendered-user_of_iff_example :
    (rendered (user_of (some guest) (some (some "admin"))) illumination ≡ content illumination)
    ↔ (Claims guest floor_roles (some (some "admin")) × (page illumination ≡ content illumination))
rendered-user_of_iff_example =
    Access.rendered-user_of_iff guest floor_roles (some (some "admin")) illumination illumination
      illumination_roles

staff_cannot_delete : guard delete_user_route (some "token") (some (some "staff")) ≡ denied 403
unfolding guard required_roles require_role require_auth some_by
staff_cannot_delete = refl

deletion_roles : required_roles (endpoint_of (deletes_user "u")) ≡ some ("admin" ∷ [])
unfolding required_roles endpoint_of
deletion_roles = refl

pages_of-IsPassed_example :
    All
      (λ l.
        (rendered (user_of (some guest) (some (some "admin"))) l ≡ content l)
        ↔ IsPassed (guard (endpoint_of (deletes_user "u")) (some "token") (some (some "admin"))))
      (pages_of (deletes_user "u"))
pages_of-IsPassed_example =
    ServerAccess.pages_of-IsPassed guest "token" (deletes_user "u") ("admin" ∷ [])
      (some (some "admin")) deletion_roles

two_redirects_settle_example :
    IsSettled true
      (redirect true (redirect true (record { user = some (person "admin"); location = login })))
two_redirects_settle_example =
    Settling.two_redirects_settle true (record { user = some (person "admin"); location = login })
