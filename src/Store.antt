-- ===== src/Store.antt =====
-- frontend/src/store/useStore.js: the state that the pages share, with the shapes of what the server
-- sends into it. `none` is undefined.
use gbc_smart_management.Base.{ℕ, Bool, false, List, [], Option, none, some, Text, String}
use gbc_smart_management.Config.{GlobalConfig}

-- A booking as the server sends it; the times are those of its ISO texts, the amount in hundredths.
pub record RawBooking : Type 0 where
  pub id : String
  pub table_id : ℕ
  pub booker_name : Text
  pub booker_mobile : Text
  pub check_in_time : ℕ
  pub check_out_time : ℕ
  pub amount : ℕ
  pub is_paid : Bool

-- The session that a table shows.
pub record CurrentBooking : Type 0 where
  pub booking_id : String
  pub booker_name : Text
  pub booker_mobile : Text
  pub check_in_time : Option ℕ
  pub check_out_time : Option ℕ
  pub amount : ℕ
  pub is_paid : Bool

pub record TableState : Type 0 where
  pub table_id : ℕ
  pub table_name : Text
  pub status : String
  pub light_status : String
  pub current_booking : Option CurrentBooking

pub record Store : Type 0 where
  pub tables : Option (List TableState)
  pub timeline : Option (List RawBooking)
  pub is_connected : Bool
  pub global_config : Option GlobalConfig

unfoldable pub initial_store : Store
initial_store = record {
  tables = some [];
  timeline = some [];
  is_connected = false;
  global_config = none;
}

unfoldable pub set_tables : Option (List TableState) → Store → Store
set_tables v s = record s { tables = v }

unfoldable pub set_timeline : Option (List RawBooking) → Store → Store
set_timeline v s = record s { timeline = v }

unfoldable pub set_is_connected : Bool → Store → Store
set_is_connected v s = record s { is_connected = v }

unfoldable pub set_global_config : Option GlobalConfig → Store → Store
set_global_config v s = record s { global_config = v }
