-- ===== src/Routes/Access.antt =====
-- Who sees what.
use gbc_smart_management.Base.{
  true, false, List, Option, none, some, String, str_eq, ◌≡◌, ◌⊎◌, ◌↔◌, inl, inr, refl, arith, All,
  ap, ◌∙◌, Option-cases, Bool-cases, some_by,
}
use gbc_smart_management.Routes.{
  FirebaseUser, user_of, User, Location, Rendered, content, includes, protected_route,
  allowed_roles, page, is_in_layout, route_element, rendered, or_null, nav_items,
}

-- The user is signed in with a role of the list.
pub HasRoleIn : Option User → List String → Type 0
HasRoleIn u rs =
    (v : User) × (r : String) × (u ≡ some v) × (or_null v.role ≡ some r) × (includes rs r ≡ true)

pub HasRole : Option User → Type 0
HasRole u = (v : User) × (r : String) × (u ≡ some v) × (or_null v.role ≡ some r)

module _ (children : Rendered) (p : Location) where
  protected_route_any_from :
      (u : Option User)
      → protected_route u none children ≡ content p
      → HasRole u × (children ≡ content p)
  unfolding protected_route HasRole
  protected_route_any_from none h = ground arith
  protected_route_any_from (some v) h = elim (Option-cases (or_null v.role)) [
    | inl e ↦ ground arith
    | inr c ↦ ((v, c.0, refl, c.1), grind arith)
  ]

  protected_route_any_to :
      (u : Option User) → HasRole u → protected_route u none children ≡ children
  unfolding protected_route HasRole
  protected_route_any_to u h = grind arith

  protected_route_from :
      (u : Option User) (rs : List String)
      → protected_route u (some rs) children ≡ content p
      → HasRoleIn u rs × (children ≡ content p)
  unfolding protected_route HasRoleIn
  protected_route_from none rs h = ground arith
  protected_route_from (some v) rs h = elim (Option-cases (or_null v.role)) [
    | inl e ↦ ground arith
    | inr c ↦ elim (Bool-cases (includes rs c.0)) [
      | inl is_in ↦ ((v, c.0, refl, c.1, is_in), grind arith)
      | inr is_out ↦ grind arith
    ]
  ]

  protected_route_to :
      (u : Option User) (rs : List String)
      → HasRoleIn u rs
      → protected_route u (some rs) children ≡ children
  unfolding protected_route HasRoleIn
  protected_route_to u rs h = grind arith

module _ (u : Option User) (l : Location) (rs : List String) (e : allowed_roles l ≡ some rs) where
  route_element-roles : route_element u l ≡ protected_route u (some rs) (page l)
  unfolding route_element protected_route
  route_element-roles = rw (e, route_element)

  -- At an address with a list of roles, a page is rendered exactly for the users that are signed in
  -- with one of these roles, and it is the page of that address.
  pub rendered_iff :
      (p : Location) → (rendered u l ≡ content p) ↔ (HasRoleIn u rs × (page l ≡ content p))
  unfolding rendered HasRole HasRoleIn
  rendered_iff p = elim (Bool-cases (is_in_layout l)) [
    | inl yes_layout ↦
        (grind (
          arith, protected_route_from, protected_route_to, protected_route_any_from,
          protected_route_any_to, route_element-roles,
        ))
    | inr no_layout ↦
        (grind (
          arith, protected_route_from, protected_route_to, protected_route_any_from,
          protected_route_any_to, route_element-roles,
        ))
  ]

-- A user of the staff or an administrator sees, at each address that the navigation shows, its page.
pub nav_items_lem :
    (v : User) (r : String)
    → v.role ≡ some r
    → (r ≡ "staff") ⊎ (r ≡ "admin")
    → All (λ l. rendered (some v) l ≡ content l) (nav_items (some v))
unfolding nav_items rendered is_in_layout route_element allowed_roles page protected_route or_null
    some_by
nav_items_lem v r h (inl w) = rw (h ∙ ap some w) (ground arith)
nav_items_lem v r h (inr w) = rw (h ∙ ap some w) (rw (h ∙ ap some w) (ground arith))

module _ (f : FirebaseUser) (rs : List String) where
  -- The token's claims name a role of the list.
  unfoldable pub Claims : Option (Option String) → Type 0
  Claims claims =
      (r : String) × (claims ≡ some (some r)) × (str_eq r "" ≡ false) × (includes rs r ≡ true)

  role_kept : (r : String) → str_eq r "" ≡ false → or_null (some r) ≡ some r
  unfolding or_null
  role_kept r h = ground arith

  user_of-Claims :
      (claims : Option (Option String)) → HasRoleIn (user_of (some f) claims) rs → Claims claims
  unfolding user_of or_null HasRoleIn Claims
  user_of-Claims none h = grind arith
  user_of-Claims (some none) h = grind arith
  user_of-Claims (some (some r)) h = elim (Bool-cases (str_eq r "")) [
    | inl empty ↦ grind arith
    | inr full ↦ (r, refl, full, grind arith)
  ]

  user_of-HasRoleIn :
      (claims : Option (Option String)) → Claims claims → HasRoleIn (user_of (some f) claims) rs
  unfolding user_of HasRoleIn Claims
  user_of-HasRoleIn claims h =
      rw h.1 (_, h.0, refl, ap or_null (role_kept h.0 h.2) ∙ role_kept h.0 h.2, h.3)

  -- Of a person signed in with Firebase, whose token could be read or not, the page at an address with
  -- a list of roles is rendered exactly where the token's claims name one of these roles, and not the
  -- empty one.
  pub rendered-user_of_iff :
      (claims : Option (Option String)) (l p : Location)
      → allowed_roles l ≡ some rs
      → (rendered (user_of (some f) claims) l ≡ content p) ↔ (Claims claims × (page l ≡ content p))
  rendered-user_of_iff claims l p e = grind (
    arith,
    rendered_iff (user_of (some f) claims) l rs e p,
    user_of-Claims claims,
    user_of-HasRoleIn claims,
  )
