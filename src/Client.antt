-- ===== src/Client.antt =====
-- frontend/src/api/client.js: the interceptors of the HTTP client, with the session of Routes that a
-- sign-out ends. axios and Firebase are parameters: what they know and answer stands in the arguments.
pub mod Unauthorized
use gbc_smart_management.Base.{
  List, [], ◌∷◌, ℕ, ◌==◌, Bool, true, false, Option, none, some, String, str_eq, if◌then◌else◌,
}
use gbc_smart_management.Routes.{Session, user_of}

-- What `auth.currentUser` and its `getIdToken` give.
pub data TokenLookup : Type 0 where
  no_current_user : TokenLookup
  token_failed : TokenLookup
  token_found : Option String → TokenLookup

-- The header that a request may get: the token behind "Bearer ".
abbrev pub Authorization : Type 0
Authorization = Option String

-- The interceptor of requests; `none` is a rejected request, which is not sent.
unfoldable pub attach_token : TokenLookup → Authorization → Option Authorization
attach_token no_current_user h = some h
attach_token token_failed h = none
attach_token (token_found none) h = some h
attach_token (token_found (some t)) h = some (if str_eq t "" then h else some t)

-- How a request ends: with data, with a status that is an error, or with no response.
pub data Ending {ℓ} (A : Type ℓ) : Type ℓ where
  answered : A → Ending A
  refused : ℕ → Ending A
  unreachable : Ending A

-- Whether the interceptor of responses signs out.
unfoldable pub forces_sign_out {ℓ} : {A : Type ℓ} → Ending A → Bool
forces_sign_out (answered a) = false
forces_sign_out (refused status) = status == 401
forces_sign_out unreachable = false

-- What the caller gets; `none` is a rejected promise.
unfoldable pub result_of {ℓ} : {A : Type ℓ} → Ending A → Option A
result_of (answered a) = some a
result_of (refused status) = none
result_of unreachable = none

-- The interceptor of responses: the result, and the session. `signs_out` tells whether `signOut`
-- succeeds; it then calls the listener of AuthContext with no user.
unfoldable pub respond {ℓ} : {A : Type ℓ} → Bool → Ending A → Session → Option A × Session
respond signs_out e s = (
  result_of e,
  if forces_sign_out e then (if signs_out then record s { user = user_of none none } else s) else s,
)

-- A request: the token, what is answered under its header, and whether a sign-out succeeds. One that the first
-- interceptor rejects reaches the second as an error without a response.
pub record Attempt {ℓ} (A : Type ℓ) : Type ℓ where
  pub lookup : TokenLookup
  pub reply : Authorization → Ending A
  pub signs_out : Bool

unfoldable pub ending_of {ℓ} : {A : Type ℓ} → Attempt A → Ending A
ending_of a = elim (attach_token a.lookup none) [ none ↦ unreachable | some h ↦ a.reply h ]

unfoldable pub run_attempt {ℓ} : {A : Type ℓ} → Attempt A → Session → Option A × Session
run_attempt a s = respond a.signs_out (ending_of a) s

-- The session after requests, whose answers come one after the other.
unfoldable pub after_requests {ℓ} : {A : Type ℓ} → List (Attempt A) → Session → Session
after_requests [] s = s
after_requests (a ∷ more) s = after_requests more (run_attempt a s).1
