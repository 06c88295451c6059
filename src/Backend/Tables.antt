-- ===== src/Backend/Tables.antt =====
-- backend/internal/cache/venue_cache.go and backend/internal/service/table_service.go: the state of the
-- tables in memory, what is broadcast of it, and the commands for the lights. The ids of the tables are
-- 1 to 4, as the handlers check and as the controller acknowledges. An operation runs here without another
-- goroutine between its parts; Hub and Lights have the parts as steps.
use gbc_smart_management.Base.{
  ℕ, ◌*◌, ◌/◌, leb, ltb, ◌==◌, Bool, true, false, not, ◌&&◌, ◌||◌, List, [], ◌∷◌, ◌++◌, length,
  Option, none, some, String, Text, codes, decimal, ℤ, if◌then◌else◌,
}
use gbc_smart_management.Backend.Rows.{Row}

-- A channel with a buffer: a value that does not fit is dropped.
pub record Channel (A : Type 0) : Type 0 where
  pub items : List A
  pub capacity : ℕ

unfoldable pub offer : {A : Type 0} → A → Channel A → Channel A
offer a c = if ltb (length c.items) c.capacity then record c { items = c.items ++ a ∷ [] } else c

pub data Occupancy : Type 0 where
  available busy : Occupancy

pub data LightStatus : Type 0 where
  light_on light_off pending_on pending_off : LightStatus

-- `domain.CurrentBooking`
pub record LiveBooking : Type 0 where
  pub booking_id : String
  pub booker_name : Text
  pub booker_mobile : Text
  pub check_in : ℕ
  pub check_out : ℕ
  pub duration_minutes : ℕ
  pub amount : ℤ
  pub is_paid : Bool

-- The text of a time, in the format of RFC 3339, has no fraction of a second.
abbrev pub to_second : ℕ → ℕ
to_second t = t / 1000 * 1000

-- `domain.CurrentBooking{...}`, of a row.
unfoldable pub live_of : Row → LiveBooking
live_of r = record {
  booking_id = r.id;
  booker_name = r.booker_name;
  booker_mobile = r.booker_mobile;
  check_in = to_second r.check_in;
  check_out = to_second r.check_out;
  duration_minutes = r.duration_minutes;
  amount = r.amount;
  is_paid = r.is_paid;
}

-- `domain.TableState`
pub record TableCell : Type 0 where
  pub table_id : ℕ
  pub table_name : Text
  pub occupancy : Occupancy
  pub light : LightStatus
  pub current : Option LiveBooking

-- `domain.MqttCommand`, less its id.
pub record LightCommand : Type 0 where
  pub table_id : ℕ
  pub light_state : String

-- The cache with its channel, and the channel of the commands.
pub record Tables : Type 0 where
  pub cell : ℕ → TableCell
  pub broadcasts : Channel (List TableCell)
  pub commands : Channel LightCommand

unfoldable pub new_cell : ℕ → TableCell
new_cell i = record {
  table_id = i;
  table_name = codes "Table 0" ++ decimal i;
  occupancy = available;
  light = pending_off;
  current = none;
}

unfoldable pub new_tables : Channel (List TableCell) → Channel LightCommand → Tables
new_tables broadcasts commands = record {
  cell = new_cell;
  broadcasts = broadcasts;
  commands = commands;
}

unfoldable pub get_table : ℕ → Tables → Option TableCell
get_table i s = if leb 1 i && leb i 4 then some (s.cell i) else none

unfoldable pub get_all : Tables → List TableCell
get_all s = s.cell 1 ∷ s.cell 2 ∷ s.cell 3 ∷ s.cell 4 ∷ []

unfoldable pub broadcast : Tables → Tables
broadcast s = record s { broadcasts = offer (get_all s) s.broadcasts }

abbrev pub update_cell : ℕ → TableCell → (ℕ → TableCell) → ℕ → TableCell
update_cell i t cell j = if j == i then t else cell j

unfoldable pub put_cell : ℕ → TableCell → Tables → Tables
put_cell i t s = record s { cell = update_cell i t s.cell }

-- `HydrateTable`, without a broadcast.
unfoldable pub hydrated : Option LiveBooking → TableCell → TableCell
hydrated (some b) t = record t { occupancy = busy; light = light_on; current = some b }
hydrated none t = record t { occupancy = available; light = pending_off; current = none }

unfoldable pub hydrate_table : ℕ → Option LiveBooking → Tables → Tables
hydrate_table i b s = put_cell i (hydrated b (s.cell i)) s

unfoldable pub occupied_by : LiveBooking → TableCell → TableCell
occupied_by b t = record t { occupancy = busy; light = pending_on; current = some b }

unfoldable pub vacated : TableCell → TableCell
vacated t = record t { occupancy = available; light = pending_off; current = none }

-- `sendMqttCommand`
unfoldable pub send_command : ℕ → String → Tables → Tables
send_command i state s = record s {
  commands = offer (record { table_id = i; light_state = state }) s.commands;
}

-- `ActivateTable` and `DeactivateTable` of the service, with those of the cache.
unfoldable pub activate_table : ℕ → LiveBooking → Tables → Tables
activate_table i b s = send_command i "ON" (broadcast (put_cell i (occupied_by b (s.cell i)) s))

unfoldable pub deactivate_table : ℕ → Tables → Tables
deactivate_table i s = send_command i "OFF" (broadcast (put_cell i (vacated (s.cell i)) s))

-- `SetLightStatus` and `SetAllLightStatuses`: the tables that a command is for, 0 being all.
unfoldable pub is_meant : ℕ → ℕ → Bool
is_meant target i = if target == 0 then leb 1 i && leb i 4 else i == target

unfoldable pub pending_of : Bool → LightStatus
pending_of to_on = if to_on then pending_on else pending_off

unfoldable pub set_lights : ℕ → LightStatus → (ℕ → TableCell) → ℕ → TableCell
set_lights target l cell i = if is_meant target i then record (cell i) { light = l } else cell i

unfoldable pub set_light_status : ℕ → Bool → Tables → Tables
set_light_status target to_on s =
    send_command target (if to_on then "ON" else "OFF")
      (broadcast (record s { cell = set_lights target (pending_of to_on) s.cell }))

-- `ConfirmLightStatus` and `ConfirmAllLightStatuses`, which broadcast a change only.
unfoldable pub same_light : LightStatus → LightStatus → Bool
same_light light_on light_on = true
same_light light_off light_off = true
same_light pending_on pending_on = true
same_light pending_off pending_off = true
same_light a b = false

unfoldable pub final_of : Bool → LightStatus
final_of is_lit = if is_lit then light_on else light_off

unfoldable pub some_table : (ℕ → Bool) → Bool
some_table test = test 1 || test 2 || test 3 || test 4

unfoldable pub confirm_light_status : ℕ → Bool → Tables → Tables
confirm_light_status target is_lit s =
    let l = final_of is_lit in
    if some_table (λ i. is_meant target i && not (same_light (s.cell i).light l))
    then broadcast (record s { cell = set_lights target l s.cell })
    else s

-- `ConfirmFullSync`
unfoldable pub is_pending : LightStatus → Bool
is_pending light_on = false
is_pending light_off = false
is_pending pending_on = true
is_pending pending_off = true

unfoldable pub settled_light : LightStatus → LightStatus
settled_light light_on = light_on
settled_light light_off = light_off
settled_light pending_on = light_on
settled_light pending_off = light_off

unfoldable pub confirm_full_sync : Tables → Tables
confirm_full_sync s =
    if some_table (λ i. is_pending (s.cell i).light)
    then broadcast
        (record s { cell = λ i. record (s.cell i) { light = settled_light (s.cell i).light } })
    else s

-- `UpdateCurrentBooking`, which broadcasts in any case.
unfoldable pub rebooked : LiveBooking → TableCell → TableCell
rebooked b t = elim t.current [ none ↦ t | some old ↦ record t { current = some b } ]

unfoldable pub update_current_booking : ℕ → LiveBooking → Tables → Tables
update_current_booking i b s = broadcast (put_cell i (rebooked b (s.cell i)) s)
