-- ===== src/Backend/Toggle.antt =====
-- backend/internal/handler/lights_handler.go, and what frontend/src/pages/Illumination.jsx sends to it.
pub mod Predicted
use gbc_smart_management.Base.{
  ℕ, leb, ◌==◌, Bool, true, false, ◌&&◌, ◌||◌, [], ◌∷◌, Option, none, some, String, str_eq, Text,
  codes, decimal, number, if◌then◌else◌,
}
use gbc_smart_management.Illumination.{Request, one, all, target_text}
use gbc_smart_management.Backend.Tables.{Tables, get_table, set_light_status}
use gbc_smart_management.Backend.Bookings.{Answer, ok, failed}

-- A value of JSON: a number, or the text as which `%v` prints another one.
pub data TableId : Type 0 where
  number_id : ℕ → TableId
  text_id : String → TableId

pub record ToggleInput : Type 0 where
  pub table_id : TableId
  pub target_state : String

-- `strconv.Atoi`, of a number that is not negative; a negative one is refused like another text.
after_sign : Text → Option ℕ
after_sign [] = none
after_sign (c ∷ cs) = number (c ∷ cs)

unfoldable pub whole_number : Text → Option ℕ
unfolding after_sign
whole_number [] = none
whole_number (c ∷ cs) = if c == b'+' then after_sign cs else number (c ∷ cs)

unfoldable pub table_in_range : Option ℕ → Option ℕ
table_in_range none = none
table_in_range (some n) = if leb 1 n && leb n 4 then some n else none

-- The table that is meant, 0 being all.
unfoldable pub meant_table : TableId → Option ℕ
meant_table (number_id n) = table_in_range (whole_number (decimal n))
meant_table (text_id t) = if str_eq t "ALL" then some 0 else table_in_range (whole_number (codes t))

unfoldable pub is_target : String → Bool
is_target state = str_eq state "ON" || str_eq state "OFF"

unfoldable pub is_there : ℕ → Tables → Bool
is_there i s = i == 0 || elim (get_table i s) [ none ↦ false | some t ↦ true ]

-- `Toggle`, of a body that is `none` where it cannot be parsed.
unfoldable pub handle_toggle : Option ToggleInput → Tables → Answer ToggleInput × Tables
handle_toggle none s = (failed 400, s)
handle_toggle (some d) s = elim (meant_table d.table_id) [
  | none ↦ (failed 400, s)
  | some i ↦
      if is_target d.target_state && is_there i s
      then (ok d, set_light_status i (str_eq d.target_state "ON") s)
      else (failed 400, s)
]

-- The calls of `toggleLightApi`.
unfoldable pub light_request : Request → ToggleInput
light_request (one i t) = record { table_id = number_id i; target_state = target_text t }
light_request (all ids t) = record { table_id = text_id "ALL"; target_state = target_text t }
