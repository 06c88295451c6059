-- ===== src/Tests/Lights.antt =====
-- backend/internal/hardware and hardware/main
use gbc_smart_management.Base.{◌≡◌, refl, arith, [], none, true}
use gbc_smart_management.Backend.Tables.{
  Tables, LightCommand, new_tables, new_cell, confirm_light_status, settled_light, final_of, offer,
  broadcast, some_table, is_meant, same_light, set_lights, pending_of,
}
use gbc_smart_management.Backend.Lights.{
  Lights, Ack, Controller, first_relay, receive_command, taken_from, sent_to, LightRun, idle,
  and_then, changes, overrides, sends, receives, switches, finishes, confirms, queue_state,
  has_waited, switch_relay, finish_relay, acknowledge, is_on_command,
}
use gbc_smart_management.Backend.Lights.Agreement.{IsUndisturbedRun, quiet_lights_agree}
use gbc_smart_management.Tests.Backend.{quiet}

-- The light of the first table is at_rest on, and the controller follows half a second later.
abbrev dark : Lights
dark = record {
  tables = new_tables quiet quiet;
  calls = [];
  controller = record { relay = λ i. first_relay; acks = []; switching = none };
}

abbrev on_command : LightCommand
on_command = record { table_id = 1; light_state = "ON" }

abbrev asked_on : Tables
asked_on = record (dark.tables) { cell = set_lights 1 (pending_of true) dark.tables.cell }

abbrev taken_up : Controller
taken_up = receive_command 1000 on_command dark.controller

abbrev at_rest : Controller
at_rest = finish_relay 1 (switch_relay 1 taken_up)

abbrev on_ack : Ack
on_ack = record { table_id = 1; is_on = true }

abbrev lit : Lights
lit = record {
  tables = confirm_light_status 1 true (taken_from [] (sent_to on_command asked_on));
  calls = [];
  controller = record at_rest { acks = [] };
}

abbrev light_run : LightRun dark lit
unfolding offer receive_command queue_state has_waited switch_relay finish_relay acknowledge
    is_on_command new_tables
light_run =
    and_then
      (and_then
        (and_then
          (and_then
            (and_then (and_then idle (changes asked_on.cell on_command (overrides 1 true)))
              (sends [] on_command [] refl))
            (receives 1000 on_command [] refl))
          (switches 1600 1 (omega arith) refl refl))
        (finishes 1 refl))
      (confirms on_ack [] refl)

light_run-IsUndisturbed : IsUndisturbedRun light_run
unfolding light_run new_tables
light_run-IsUndisturbed = ((((((tt, tt), (refl, refl)), (λ j busy. cc busy)), tt), tt), tt)

quiet_lights_agree_example :
    settled_light (lit.tables.cell 1).light ≡ final_of (lit.controller.relay 1).is_on
unfolding confirm_light_status offer broadcast receive_command queue_state has_waited switch_relay
    finish_relay acknowledge is_on_command new_tables final_of settled_light new_cell some_table
    is_meant same_light set_lights pending_of
quiet_lights_agree_example =
    quiet_lights_agree dark lit 1 (omega arith) (omega arith)
      (record { calls = refl; commands = refl; acks = refl; relay = refl }) refl light_run
      light_run-IsUndisturbed (record { calls = refl; commands = refl; acks = refl; relay = refl })
