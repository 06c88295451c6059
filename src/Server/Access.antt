-- ===== src/Server/Access.antt =====
-- The pages are shown to those whose requests the server lets pass.
use gbc_smart_management.Base.{
  inl, inr, List, [], ◌∷◌, Option, none, some, String, str_eq, ◌≡◌, ◌↔◌, refl, sym, ◌∙◌, arith, All,
  Bool-cases, some_by,
}
use gbc_smart_management.Routes.{
  FirebaseUser, user_of, Location, content, rendered, allowed_roles, page, includes, bookings,
  admin, hardware, illumination,
}
use gbc_smart_management.Routes.Access.{Claims, rendered-user_of_iff}
use gbc_smart_management.Api.Requests.{
  ApiCall, creates_booking, updates_booking, cancels_booking, gets_timeline, gets_config,
  updates_config, gets_health, toggles_light, lists_users, sets_role, deletes_user, pages_of,
}
use gbc_smart_management.Server.{
  Endpoint, create_route, timeline_route, update_route, cancel_route, toggle_route, hardware_route,
  update_config_route, list_users_route, set_role_route, delete_user_route, required_roles, Verdict,
  passed, require_auth, require_role, guard,
}
use gbc_smart_management.Server.Paths.{endpoint_of}

pub IsPassed : Verdict → Type 0
IsPassed v = (r : String) × (v ≡ passed r)

module _ (f : FirebaseUser) (t : String) where
  guard_iff :
      (e : Endpoint) (rs : List String) (claims : Option (Option String))
      → required_roles e ≡ some rs
      → IsPassed (guard e (some t) claims) ↔ Claims f rs claims
  unfolding IsPassed guard require_role require_auth Claims
  guard_iff e rs none h = rw (h, guard) (grind arith)
  guard_iff e rs (some none) h = rw (h, guard) (grind arith)
  guard_iff e rs (some (some r)) h = elim (Bool-cases (str_eq r "")) [
    | inl empty ↦ rw (h, guard) (rw empty (grind arith))
    | inr full ↦ elim (Bool-cases (includes rs r)) [
      | inl is_in ↦ rw (h, guard) (rw (full, is_in) (grind arith))
      | inr is_out ↦ rw (h, guard) (rw (full, is_out) (grind arith))
    ]
  ]

  includes-Claims :
      (ps rs : List String) (claims : Option (Option String))
      → ((r : String) → includes ps r ≡ includes rs r)
      → Claims f ps claims
      → Claims f rs claims
  unfolding Claims
  includes-Claims ps rs claims same h = (h.0, h.1, h.2, sym (same h.0) ∙ h.3)

  page_iff :
      (e : Endpoint) (l : Location) (rs ps : List String) (claims : Option (Option String))
      → required_roles e ≡ some rs
      → allowed_roles l ≡ some ps
      → page l ≡ content l
      → ((r : String) → includes ps r ≡ includes rs r)
      → (rendered (user_of (some f) claims) l ≡ content l) ↔ IsPassed (guard e (some t) claims)
  page_iff e l rs ps claims h k s same = grind (
    arith,
    guard_iff e rs claims h,
    rendered-user_of_iff f ps claims l l k,
    includes-Claims ps rs claims same,
    includes-Claims rs ps claims (λ r. sym (same r)),
  )

  -- A page for the staff, and the page of the administrator.
  floor :
      (claims : Option (Option String)) (e : Endpoint) (l : Location)
      → required_roles e ≡ some ("admin" ∷ "staff" ∷ [])
      → allowed_roles l ≡ some ("staff" ∷ "admin" ∷ [])
      → page l ≡ content l
      → (rendered (user_of (some f) claims) l ≡ content l) ↔ IsPassed (guard e (some t) claims)
  unfolding some_by
  floor claims e l h k s = page_iff e l _ _ claims h k s swapped
    where
      swapped :
          (r : String) → includes ("staff" ∷ "admin" ∷ []) r ≡ includes ("admin" ∷ "staff" ∷ []) r
      swapped r = ground arith

  admin_only :
      (claims : Option (Option String)) (e : Endpoint)
      → required_roles e ≡ some ("admin" ∷ [])
      → allowed_roles admin ≡ some ("admin" ∷ [])
      → (rendered (user_of (some f) claims) admin ≡ content admin)
        ↔ IsPassed (guard e (some t) claims)
  unfolding page
  admin_only claims e h k = page_iff e admin _ _ claims h k refl (λ r. refl)

  -- Of a person signed in with Firebase, and for a call that is not the reading of the settings: each
  -- page that makes the call is rendered exactly where the server, which finds the same claims in the
  -- token, lets the call pass.
  pub pages_of-IsPassed :
      (c : ApiCall) (rs : List String) (claims : Option (Option String))
      → required_roles (endpoint_of c) ≡ some rs
      → All
          (λ l.
            (rendered (user_of (some f) claims) l ≡ content l)
            ↔ IsPassed (guard (endpoint_of c) (some t) claims))
          (pages_of c)
  unfolding pages_of endpoint_of required_roles allowed_roles page
  pages_of-IsPassed (creates_booking d) rs claims h =
      (floor claims create_route bookings refl refl refl, _)
  pages_of-IsPassed (updates_booking id u) rs claims h =
      (floor claims update_route bookings refl refl refl, _)
  pages_of-IsPassed (cancels_booking id) rs claims h =
      (floor claims cancel_route bookings refl refl refl, _)
  pages_of-IsPassed (gets_timeline date) rs claims h =
      (floor claims timeline_route bookings refl refl refl, _)
  pages_of-IsPassed gets_config rs claims h = grind arith
  pages_of-IsPassed (updates_config c) rs claims h =
      (admin_only claims update_config_route refl refl, _)
  pages_of-IsPassed gets_health rs claims h =
      (floor claims hardware_route hardware refl refl refl, _)
  pages_of-IsPassed (toggles_light id target) rs claims h =
      (floor claims toggle_route illumination refl refl refl, _)
  pages_of-IsPassed (lists_users n token) rs claims h =
      (admin_only claims list_users_route refl refl, _)
  pages_of-IsPassed (sets_role uid role) rs claims h =
      (admin_only claims set_role_route refl refl, _)
  pages_of-IsPassed (deletes_user uid) rs claims h =
      (admin_only claims delete_user_route refl refl, _)
