-- ===== src/Routes.antt =====
-- frontend/src/App.jsx, components/ProtectedRoute.jsx, contexts/AuthContext.jsx, pages/Login.jsx,
-- pages/PendingApproval.jsx, pages/Dashboard.jsx and components/layout/Navigation.jsx: which page a
-- user sees at an address, and where the user is sent instead.
pub mod Access
pub mod Settling
use gbc_smart_management.Base.{
  Bool, true, false, ◌++◌, List, [], ◌∷◌, Option, none, some, String, str_eq, if◌then◌else◌,
  some_by,
}

-- What Firebase tells of a person, and what AuthContext keeps of it. The role is `null` where it is
-- `none`.
pub record FirebaseUser : Type 0 where
  pub uid : String
  pub email : Option String
  pub display_name : Option String
  pub photo_url : Option String

pub record User : Type 0 where
  pub uid : String
  pub email : Option String
  pub display_name : Option String
  pub photo_url : Option String
  pub role : Option String

-- `text || null`
unfoldable pub or_null : Option String → Option String
or_null none = none
or_null (some t) = if str_eq t "" then none else some t

-- The listener of `onAuthStateChanged`: the user it sets. The second argument is the role among the
-- token's claims, and `none` where `getIdTokenResult` throws.
unfoldable pub user_of : Option FirebaseUser → Option (Option String) → Option User
user_of none claims = none
user_of (some u) none = none
user_of (some u) (some role) = some (record {
  uid = u.uid;
  email = u.email;
  display_name = u.display_name;
  photo_url = u.photo_url;
  role = or_null role;
})

-- The addresses of App's routes; the page of the pending approval carries the `email` of its state.
pub data Location : Type 0 where
  home : Location
  login : Location
  pending_approval : Option String → Location
  tv_display : Location
  bookings : Location
  dashboard : Location
  illumination : Location
  admin : Location
  hardware : Location
  unmatched : String → Location

-- A page, a `Navigate` element, or nothing.
pub data Rendered : Type 0 where
  content : Location → Rendered
  navigate : Location → Rendered
  blank : Rendered

abbrev pub includes : List String → String → Bool
includes rs r = some_by (str_eq r) rs

-- `ProtectedRoute` with a role that is not allowed.
unfoldable pub page_for_role : String → Location
page_for_role r =
    if str_eq r "tv"
    then tv_display
    else if str_eq r "staff"
    then bookings
    else if str_eq r "admin"
    then dashboard
    else home

-- `ProtectedRoute`, less its effect.
unfoldable pub protected_route : Option User → Option (List String) → Rendered → Rendered
protected_route none roles children = navigate login
protected_route (some u) roles children = elim (or_null u.role) [
  | none ↦ blank
  | some r ↦ elim roles [
    | none ↦ children
    | some rs ↦ if includes rs r then children else navigate (page_for_role r)
  ]
]

-- The `allowedRoles` of App's routes; `none` for the public ones.
unfoldable pub allowed_roles : Location → Option (List String)
allowed_roles home = none
allowed_roles login = none
allowed_roles (pending_approval e) = none
allowed_roles tv_display = some ("tv" ∷ "staff" ∷ "admin" ∷ [])
allowed_roles bookings = some ("staff" ∷ "admin" ∷ [])
allowed_roles dashboard = some ("staff" ∷ "admin" ∷ [])
allowed_roles illumination = some ("staff" ∷ "admin" ∷ [])
allowed_roles admin = some ("admin" ∷ [])
allowed_roles hardware = some ("staff" ∷ "admin" ∷ [])
allowed_roles (unmatched path) = none

-- The page of an address: Dashboard and PendingApproval may render a `Navigate`.
unfoldable pub page : Location → Rendered
page home = content home
page login = content login
page (pending_approval e) = elim (or_null e) [
  | none ↦ navigate home
  | some email ↦ content (pending_approval e)
]
page tv_display = content tv_display
page bookings = content bookings
page dashboard = navigate bookings
page illumination = content illumination
page admin = content admin
page hardware = content hardware
page (unmatched path) = blank

-- Whether the route stands in the route of the layout, which is protected as well, for any role.
unfoldable pub is_in_layout : Location → Bool
is_in_layout home = false
is_in_layout login = false
is_in_layout (pending_approval e) = false
is_in_layout tv_display = false
is_in_layout bookings = true
is_in_layout dashboard = true
is_in_layout illumination = true
is_in_layout admin = true
is_in_layout hardware = true
is_in_layout (unmatched path) = false

unfoldable pub route_element : Option User → Location → Rendered
route_element u l = elim (allowed_roles l) [
  | none ↦ page l
  | some rs ↦ protected_route u (some rs) (page l)
]

-- App: what is rendered at an address.
unfoldable pub rendered : Option User → Location → Rendered
rendered u l =
    if is_in_layout l then protected_route u none (route_element u l) else route_element u l

-- What the effects of Login and ProtectedRoute do: nothing, a navigation, or a sign-out, which goes
-- on to the pending approval of the email.
pub data Effect : Type 0 where
  no_effect : Effect
  go : Location → Effect
  sign_out : Option String → Effect

-- The effect of Login.
unfoldable pub login_effect : Option User → Effect
login_effect none = no_effect
login_effect (some u) = elim u.role [
  | none ↦ sign_out u.email
  | some r ↦
      if str_eq r "admin"
      then go dashboard
      else if str_eq r "staff"
      then go bookings
      else if str_eq r "tv"
      then go tv_display
      else sign_out u.email
]

-- The effect of ProtectedRoute.
unfoldable pub protected_effect : Option User → Effect
protected_effect none = no_effect
protected_effect (some u) = elim (or_null u.role) [ none ↦ sign_out u.email | some r ↦ no_effect ]

unfoldable pub effect_at : Option User → Location → Effect
effect_at u home = no_effect
effect_at u login = login_effect u
effect_at u (pending_approval e) = no_effect
effect_at u tv_display = protected_effect u
effect_at u bookings = protected_effect u
effect_at u dashboard = protected_effect u
effect_at u illumination = protected_effect u
effect_at u admin = protected_effect u
effect_at u hardware = protected_effect u
effect_at u (unmatched path) = no_effect

pub record Session : Type 0 where
  pub user : Option User
  pub location : Location

-- The `Navigate` element that is rendered, if any.
unfoldable pub follow : Session → Session
follow s = elim (rendered s.user s.location) [
  | content p ↦ s
  | navigate l ↦ record s { location = l }
  | blank ↦ s
]

-- The next redirection. `signs_out` tells whether Firebase's `signOut` succeeds: it then calls the
-- listener with no user, and where it fails `logout` throws and nothing follows.
unfoldable pub redirect : Bool → Session → Session
redirect signs_out s = elim (effect_at s.user s.location) [
  | no_effect ↦ follow s
  | go l ↦ record s { location = l }
  | sign_out e ↦ if signs_out then record { user = none; location = pending_approval e } else s
]

-- `navItems`
unfoldable pub nav_items : Option User → List Location
nav_items u =
    (bookings ∷ illumination ∷ tv_display ∷ hardware ∷ [])
    ++ (if is_admin u then admin ∷ [] else [])
  where
    is_admin : Option User → Bool
    is_admin none = false
    is_admin (some u) = elim u.role [ none ↦ false | some r ↦ str_eq r "admin" ]
