-- ===== src/Shell.antt =====
-- What stands around the pages: the button of frontend/src/pages/Login.jsx, the logout of
-- components/layout/TopHeader.jsx, and the dialogs of components/ui/Modal.jsx, which share the
-- scrolling of the page.
pub mod Scrolling
use gbc_smart_management.Base.{
  ℕ, ◌==◌, Bool, true, false, not, ◌&&◌, List, [], ◌∷◌, Option, none, some, String, str_eq, text_or,
  if◌then◌else◌, filter_by,
}
use gbc_smart_management.Routes.{Session, User, login, user_of}

-- `isLoggingIn` and `error`
pub record LoginForm : Type 0 where
  pub is_logging_in : Bool
  pub error : String

-- `handleGoogleLogin` up to the popup, behind its button; and the rest of it, when the popup ends.
unfoldable pub press_login : LoginForm → LoginForm
press_login s = if s.is_logging_in then s else record { is_logging_in = true; error = "" }

unfoldable pub login_ended : Bool → LoginForm → LoginForm
login_ended true s = record s { is_logging_in = false }
login_ended false s = record {
  is_logging_in = false;
  error = "Failed to log in. Please try again.";
}

unfoldable pub login_text : LoginForm → String
login_text s = if s.is_logging_in then "Connecting..." else "Continue with Google"

-- `handleLogout`: where Firebase's `signOut` succeeds, it calls the listener with no user.
unfoldable pub handle_logout : Bool → Session → Session
handle_logout true s = record { user = user_of none none; location = login }
handle_logout false s = s

-- The role that the header shows.
abbrev pub role_of : Option User → Option String
role_of none = none
role_of (some u) = u.role

unfoldable pub role_text : Option User → String
role_text u = text_or (role_of u) "Guest"

-- The dialogs that are mounted, each with `isOpen`, and whether the scrolling of the page is held
-- (`document.body.style.overflow` is "hidden").
pub record Mounted : Type 0 where
  pub id : ℕ
  pub is_open : Bool

pub record Dialogs : Type 0 where
  pub mounted : List Mounted
  pub held : Bool

unfoldable pub no_dialogs : Dialogs
no_dialogs = record { mounted = []; held = false }

unfoldable pub drop_dialog : ℕ → List Mounted → List Mounted
drop_dialog i ms = filter_by (λ m. not (m.id == i)) ms

-- The first effect of Modal: it runs when a dialog is mounted, and again, behind its clean-up, when its
-- `isOpen` changes; the clean-up runs when it is unmounted.
unfoldable pub mount_dialog : ℕ → Bool → Dialogs → Dialogs
mount_dialog i opened s = record {
  mounted = record { id = i; is_open = opened } ∷ s.mounted;
  held = opened;
}

unfoldable pub change_dialog : ℕ → Bool → Dialogs → Dialogs
change_dialog i opened s = record {
  mounted = record { id = i; is_open = opened } ∷ drop_dialog i s.mounted;
  held = opened;
}

unfoldable pub unmount_dialog : ℕ → Dialogs → Dialogs
unmount_dialog i s = record { mounted = drop_dialog i s.mounted; held = false }

-- `handleEsc`, of which the listener is there while the dialog is open, and `handleBackdropClick`: whether
-- `onClose` is called.
unfoldable pub closes_on_key : String → Mounted → Bool
closes_on_key key m = m.is_open && str_eq key "Escape"

unfoldable pub closes_on_click : Bool → Bool → Mounted → Bool
closes_on_click close_on_backdrop_click on_backdrop m =
    m.is_open && close_on_backdrop_click && on_backdrop
