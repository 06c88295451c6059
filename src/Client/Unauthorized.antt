-- ===== src/Client/Unauthorized.antt =====
-- What becomes of the session when requests fail.
use gbc_smart_management.Base.{
  ◌==◌, ◌&&◌, ◌≡◌, refl, ◌∙◌, arith, Bool, false, List, [], ◌∷◌, none, some, String, some_by,
  Bool-cases, Option-cases, inl, inr, if◌then◌else◌,
}
use gbc_smart_management.Routes.{
  Session, Location, home, login, pending_approval, tv_display, bookings, dashboard, illumination,
  admin, hardware, unmatched, user_of, allowed_roles, redirect, effect_at, protected_effect,
  login_effect, follow, rendered, is_in_layout, route_element, protected_route, page,
}
use gbc_smart_management.Client.{
  Ending, answered, refused, unreachable, attach_token, forces_sign_out, respond, Attempt,
  ending_of, run_attempt, after_requests,
}

-- Without a user, the next redirection from an address with a list of roles leads to the login.
no_user_to_login :
    (b : Bool) (l : Location) (rs : List String)
    → allowed_roles l ≡ some rs
    → redirect b (record { user = none; location = l }) ≡ record { user = none; location = login }
unfolding allowed_roles redirect effect_at protected_effect login_effect follow rendered
    is_in_layout route_element protected_route page
no_user_to_login b home rs e = ground arith
no_user_to_login b login rs e = refl
no_user_to_login b (pending_approval m) rs e = ground arith
no_user_to_login b tv_display rs e = refl
no_user_to_login b bookings rs e = refl
no_user_to_login b dashboard rs e = refl
no_user_to_login b illumination rs e = refl
no_user_to_login b admin rs e = refl
no_user_to_login b hardware rs e = refl
no_user_to_login b (unmatched p) rs e = ground arith

-- The request was sent, with a token or without a user, its status is 401, and the sign-out succeeds.
abbrev pub is_unauthorized {ℓ} : {A : Type ℓ} → Ending A → Bool
is_unauthorized (answered a) = false
is_unauthorized (refused status) = status == 401
is_unauthorized unreachable = false

abbrev pub ends_session {ℓ} : {A : Type ℓ} → Attempt A → Bool
ends_session a =
    a.signs_out
    && elim (attach_token a.lookup none) [ none ↦ false | some h ↦ is_unauthorized (a.reply h) ]

abbrev signed_out : Session → Session
signed_out s = record s { user = none }

module _ {ℓ} {A : Type ℓ} where
  respond-session :
      (signs_out : Bool) (e : Ending A) (s : Session)
      → (respond signs_out e s).1 ≡ (if signs_out && is_unauthorized e then signed_out s else s)
  unfolding respond forces_sign_out user_of
  respond-session signs_out (answered a) s = ground arith
  respond-session signs_out (refused status) s = ground arith
  respond-session signs_out unreachable s = ground arith

  run_attempt-session :
      (a : Attempt A) (s : Session)
      → (run_attempt a s).1 ≡ (if ends_session a then signed_out s else s)
  unfolding run_attempt ending_of
  run_attempt-session a s = elim (Option-cases (attach_token a.lookup none)) [
    | inl gone ↦ rw (ending_of, gone) (respond-session a.signs_out unreachable s)
    | inr (h, there) ↦ rw (ending_of, there) (respond-session a.signs_out (a.reply h) s)
  ]

  after_requests-session :
      (attempts : List (Attempt A)) (s : Session)
      → after_requests attempts s ≡ (if some_by ends_session attempts then signed_out s else s)
  unfolding after_requests some_by
  after_requests-session [] s = refl
  after_requests-session (a ∷ attempts) s =
      rw (run_attempt-session a s) (elim (Bool-cases (ends_session a)) [
        | inl ends ↦ rw ends (after_requests-session attempts (signed_out s) ∙ ground arith)
        | inr stays ↦ rw stays (after_requests-session attempts s)
      ])

  -- From a session at an address with a list of roles, after any requests whose answers come one after the
  -- other: where one of them was sent, got the status 401, and its sign-out succeeded, the session has
  -- no user and the next redirection leads to the login; where there is none, whatever else failed,
  -- the session and its next redirection are as before.
  pub after_requests-redirect :
      (attempts : List (Attempt A)) (b : Bool) (s : Session) (rs : List String)
      → allowed_roles s.location ≡ some rs
      → ((after_requests attempts s).user
          ≡ (if some_by ends_session attempts then none else s.user))
        × (redirect b (after_requests attempts s) ≡ (
            if some_by ends_session attempts
            then record { user = none; location = login }
            else redirect b s))
  after_requests-redirect attempts b s rs e =
      rw (after_requests-session attempts s) (elim (Bool-cases (some_by ends_session attempts)) [
        | inl ends ↦ rw ends (refl, no_user_to_login b s.location rs e)
        | inr stays ↦ rw stays (refl, refl)
      ])
