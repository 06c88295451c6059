-- ===== src/Backend/Settings.antt =====
-- backend/internal: handler/config_handler.go, service/config_service.go and repository/config_repo.go, the
-- settings of the club, with what the form of frontend/src/pages/Admin.jsx sends and the pages read.
pub mod Hours
use gbc_smart_management.Base.{
  ℕ, Bool, true, false, ◌||◌, ◌≡◌, List, [], ◌∷◌, Option, none, some, String, str_eq, Text, codes,
  every, if◌then◌else◌,
}
use gbc_smart_management.Config.{GlobalConfig}
use gbc_smart_management.Backend.Days.{VenueConfig}
use gbc_smart_management.Backend.Bookings.{Answer, ok, failed}

-- A value in a body or in a document: a number, in hundredths, a text, or anything else.
pub data FieldValue : Type 0 where
  number_value : ℕ → FieldValue
  text_value : Text → FieldValue
  other_value : FieldValue

-- The document "GLOBAL_CONFIG": what is stored under a key, of whatever kind it is.
pub record ConfigDoc : Type 0 where
  pub fields : String → Option FieldValue
  pub updated_at : ℕ

pub record Settings : Type 0 where
  pub hourly_rate : ℕ
  pub venue_close_time : Text
  pub venue_start_time : Text
  pub updated_at : ℕ

-- How the driver of the database reads a stored value into a field of `configDoc`.
pub record Driver : Type 0 where
  pub rate_from : FieldValue → Option ℕ
  pub text_from : FieldValue → Option Text

-- `Decode`: a field that is not there keeps the zero of its type.
unfoldable pub read_field :
    {A : Type 0} → A → (FieldValue → Option A) → Option FieldValue → Option A
read_field start read none = some start
read_field start read (some v) = read v

unfoldable pub decode : Driver → ConfigDoc → Option Settings
decode driver d = elim (read_field 0 driver.rate_from (d.fields "hourlyRate")) [
  | none ↦ none
  | some rate ↦ elim (read_field [] driver.text_from (d.fields "venueCloseTime")) [
    | none ↦ none
    | some close ↦ elim (read_field [] driver.text_from (d.fields "venueStartTime")) [
      | none ↦ none
      | some start ↦ some (record {
        hourly_rate = rate;
        venue_close_time = close;
        venue_start_time = start;
        updated_at = d.updated_at;
      })
    ]
  ]
]

-- A body, or an update of the document: its keys with their values.
abbrev pub Updates : Type 0
Updates = List (String × FieldValue)

unfoldable pub set_fields : Updates → (String → Option FieldValue) → String → Option FieldValue
set_fields [] fields key = fields key
set_fields ((k, v) ∷ more) fields key =
    let rest = set_fields more fields key in if str_eq key k then some v else rest

-- `$set`, with the upsert.
unfoldable pub stored_after : ℕ → Updates → Option ConfigDoc → ConfigDoc
stored_after now updates none = record {
  fields = set_fields updates (λ key. none);
  updated_at = now;
}
stored_after now updates (some d) = record {
  fields = set_fields updates d.fields;
  updated_at = now;
}

unfoldable pub is_allowed : String → Bool
is_allowed k = str_eq k "hourlyRate" || str_eq k "venueCloseTime" || str_eq k "venueStartTime"

unfoldable pub decoded : Option Settings → Answer Settings
decoded none = failed 500
decoded (some s) = ok s

-- `Update` of the handler, with `UpdateConfig`: what does not decode is stored all the same.
unfoldable pub handle_update_config :
    Driver → Bool → ℕ → Option Updates → Option ConfigDoc → Answer Settings × Option ConfigDoc
handle_update_config driver writes now none doc = (failed 400, doc)
handle_update_config driver writes now (some updates) doc =
    if every (λ u. is_allowed u.0) updates
    then (if writes
        then (
          decoded (decode driver (stored_after now updates doc)),
          some (stored_after now updates doc),
        )
        else (failed 500, doc))
    else (failed 400, doc)

-- `Get` of the handler: where there is no document, the answer is null.
unfoldable pub handle_get_config : Driver → Bool → Option ConfigDoc → Answer (Option Settings)
handle_get_config driver reads none = if reads then ok none else failed 500
handle_get_config driver reads (some d) =
    if reads
    then elim (decode driver d) [ none ↦ failed 500 | some s ↦ ok (some s) ]
    else failed 500

-- `EnsureDefault`
unfoldable pub default_settings : ℕ → ConfigDoc
default_settings now = record {
  fields =
      set_fields
        (("hourlyRate", number_value 150000)
          ∷ ("venueCloseTime", text_value (codes "00:00"))
          ∷ ("venueStartTime", text_value (codes "09:00"))
          ∷ [])
        (λ key. none);
  updated_at = now;
}

unfoldable pub ensure_default : Bool → Bool → ℕ → Option ConfigDoc → Option ConfigDoc
ensure_default counts inserts now none =
    if counts then (if inserts then some (default_settings now) else none) else none
ensure_default counts inserts now (some d) = some d

-- The body of `updateConfig`, and an answer as the pages read it.
unfoldable pub settings_body : GlobalConfig → Updates
settings_body c =
    ("hourlyRate", number_value c.hourly_rate)
    ∷ ("venueStartTime", text_value c.venue_start_time)
    ∷ ("venueCloseTime", text_value c.venue_close_time)
    ∷ []

unfoldable pub config_of : Settings → GlobalConfig
config_of s = record {
  hourly_rate = s.hourly_rate;
  venue_start_time = s.venue_start_time;
  venue_close_time = s.venue_close_time;
}

-- What the services read of the settings.
unfoldable pub venue_config_of : Settings → VenueConfig
venue_config_of s = record { venue_start = s.venue_start_time; venue_close = s.venue_close_time }
