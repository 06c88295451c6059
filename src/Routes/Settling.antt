-- ===== src/Routes/Settling.antt =====
-- Redirections end.
use gbc_smart_management.Base.{
  Bool, false, Option, none, some, String, ◌≡◌, ◌⊎◌, inl, inr, refl, arith, str_eq, eq_iff,
}
use gbc_smart_management.Routes.{
  User, Location, home, pending_approval, rendered, or_null, Session, redirect, follow, effect_at,
  login_effect, protected_effect, protected_route, route_element, page, page_for_role, is_in_layout,
  allowed_roles,
}

-- Nothing sends the user away.
pub IsSettled : Bool → Session → Type 0
IsSettled signs_out s = redirect signs_out s ≡ s

module _ (u : Option User) (signs_out : Bool) where
  home-IsSettled : IsSettled signs_out (record { user = u; location = home })
  unfolding IsSettled redirect effect_at follow rendered is_in_layout route_element allowed_roles
      page
  home-IsSettled = ground arith

  pending_approval_settles :
      (e : Option String)
      → IsSettled signs_out
          (redirect signs_out (record { user = u; location = pending_approval e }))
  unfolding home-IsSettled
  pending_approval_settles e = ground arith

module _ (v : User) (l : Location) (signs_out : Bool) where
  admin_settles :
      v.role ≡ some "admin"
      → let s : Session = record { user = some v; location = l } in
        IsSettled signs_out (redirect signs_out (redirect signs_out s))
  unfolding IsSettled redirect effect_at follow rendered is_in_layout route_element allowed_roles
      page login_effect protected_effect protected_route page_for_role or_null
  admin_settles e = rw e (ground arith)

  staff_settles :
      v.role ≡ some "staff"
      → let s : Session = record { user = some v; location = l } in
        IsSettled signs_out (redirect signs_out (redirect signs_out s))
  unfolding admin_settles
  staff_settles e = rw e (ground arith)

  tv_settles :
      v.role ≡ some "tv"
      → let s : Session = record { user = some v; location = l } in
        IsSettled signs_out (redirect signs_out (redirect signs_out s))
  unfolding admin_settles
  tv_settles e = rw e (ground arith)

  roleless_settles :
      v.role ≡ none
      → let s : Session = record { user = some v; location = l } in
        IsSettled signs_out (redirect signs_out (redirect signs_out s))
  unfolding admin_settles
  roleless_settles e = rw e (ground arith)

  other_settles :
      (r : String)
      → v.role ≡ some r
      → str_eq r "admin" ≡ false
      → str_eq r "staff" ≡ false
      → str_eq r "tv" ≡ false
      → let s : Session = record { user = some v; location = l } in
        IsSettled signs_out (redirect signs_out (redirect signs_out s))
  unfolding admin_settles
  other_settles r e ea es et = rw e (ground arith)

nobody_settles :
    (l : Location) (signs_out : Bool)
    → let s : Session = record { user = none; location = l } in
      IsSettled signs_out (redirect signs_out (redirect signs_out s))
unfolding admin_settles
nobody_settles l signs_out = ground arith

role-cases :
    (o : Option String)
    → (o ≡ none)
      ⊎ ((o ≡ some "admin")
          ⊎ ((o ≡ some "staff")
              ⊎ ((o ≡ some "tv")
                  ⊎ ((r : String) × (o ≡ some r)
                      × (str_eq r "admin" ≡ false)
                      × (str_eq r "staff" ≡ false)
                      × (str_eq r "tv" ≡ false)))))
role-cases none = inl refl
role-cases (some r) = ground (arith, eq_iff r "admin", eq_iff r "staff", eq_iff r "tv")

settles_from :
    (u : Option User) (l : Location) (signs_out : Bool)
    → let s : Session = record { user = u; location = l } in
      IsSettled signs_out (redirect signs_out (redirect signs_out s))
settles_from none l signs_out = nobody_settles l signs_out
settles_from (some v) l signs_out = elim (role-cases v.role) [
  | inl e ↦ roleless_settles v l signs_out e
  | inr (inl e) ↦ admin_settles v l signs_out e
  | inr (inr (inl e)) ↦ staff_settles v l signs_out e
  | inr (inr (inr (inl e))) ↦ tv_settles v l signs_out e
  | inr (inr (inr (inr c))) ↦ other_settles v l signs_out c.0 c.1 c.2 c.3 c.4
]

-- Whoever the user is and wherever the page is loaded, at most two redirections follow one another: no
-- two routes send a user to and fro.
pub two_redirects_settle :
    (signs_out : Bool) (s : Session)
    → IsSettled signs_out (redirect signs_out (redirect signs_out s))
two_redirects_settle signs_out s = settles_from s.user s.location signs_out
