-- ===== src/Tests/Hub.antt =====
-- backend/internal/hub/ws_hub.go and backend/internal/handler/lights_handler.go
use gbc_smart_management.Base.{
  ◌==◌, ◌≡◌, refl, arith, List, [], some, none, true, map, subst, inl, inr, Bool-cases,
}
use gbc_smart_management.Store.{initial_store}
use gbc_smart_management.Backend.Tables.{
  Tables, TableCell, LiveBooking, new_tables, live_of, update_cell, occupied_by, offer, get_all,
  new_cell, light_on,
}
use gbc_smart_management.Backend.Hub.{
  Hub, Connection, HubRun, begun, goes_on, changes, snaps, publishes, take_snapshot, send_snapshot,
  registers, reads, greets, sends_tables, delivers, activates, put_client, state_of_cell,
  light_text, is_staff, queue_message, broadcast_to, broadcast_to_all, make_initial_state,
  send_initial_state, deliver, new_client, initial_message, tables_message, rest_of, IsRoomy,
}
use gbc_smart_management.Illumination.{
  one, off, no_actions, click, effective_status, is_pending_text, target_of, is_on_text,
}
use gbc_smart_management.Backend.Toggle.Predicted.{IsDone, toggle_is_as_shown}
use gbc_smart_management.Backend.Hub.Served.{unhurried}
use gbc_smart_management.Backend.Hub.Pages.{IsUnhurriedRun, quiet_page_shows_tables}
use gbc_smart_management.Tests.Backend.{row, quiet}

-- The first table becomes busy after a client has joined, and its initial state was read before.
abbrev opened : Hub
opened = record {
  tables = new_tables quiet quiet;
  due = 0;
  snapshots = [];
  timelines = quiet;
  clients = λ i. none;
}

abbrev ann_plays : LiveBooking
ann_plays = live_of (row "a" 1 1768023000000 1768026600000)

abbrev taken : Tables
taken =
    let t = new_tables quiet quiet in
    record t { cell = update_cell 1 (occupied_by ann_plays (t.cell 1)) t.cell }

abbrev joining : Connection
joining = new_client "staff" initial_store

abbrev informed : Connection
informed = make_initial_state none opened joining

abbrev first_message : List TableCell → Connection → Connection
first_message ts c = send_initial_state (initial_message ts none) c

abbrev welcomed : Connection
welcomed = first_message (get_all opened.tables) informed

abbrev shown_first : Connection
shown_first = deliver (initial_message (get_all opened.tables) none) [] welcomed

abbrev told : Connection
told = broadcast_to (tables_message (get_all taken)) shown_first

abbrev at_last : Connection
at_last = deliver (tables_message (get_all taken)) [] told

abbrev joined : Hub
joined = put_client 0 (some informed) (put_client 0 (some joining) opened)

abbrev changed : Hub
changed = record joined { tables = taken; due = 1 }

abbrev greeted : Hub
greeted = put_client 0 (some welcomed) (take_snapshot 0 changed)

abbrev closing : Hub
closing =
    let h = send_snapshot (get_all taken) [] (put_client 0 (some shown_first) greeted) in
    put_client 0 (some at_last) (record h {
      tables = rest_of [] h.tables;
      clients = broadcast_to_all (tables_message (get_all taken)) h.clients;
    })

abbrev to_greeted : HubRun opened greeted
unfolding new_tables put_client new_client make_initial_state send_initial_state queue_message
    is_staff get_all take_snapshot
to_greeted =
    goes_on
      (goes_on
        (goes_on
          (goes_on (goes_on begun (registers 0 "staff" initial_store refl))
            (reads 0 joining none refl refl))
          (changes taken.cell (activates 1 ann_plays)))
        (snaps 0 refl))
      (greets 0 informed (initial_message (get_all opened.tables) none) refl refl refl)

abbrev to_closing : HubRun opened closing
unfolding new_tables offer put_client new_client make_initial_state send_initial_state queue_message
    broadcast_to broadcast_to_all is_staff deliver get_all take_snapshot send_snapshot
to_closing =
    goes_on
      (goes_on
        (goes_on
          (goes_on to_greeted
            (delivers 0 welcomed (initial_message (get_all opened.tables) none) [] refl refl))
          (publishes [] (get_all taken) [] refl))
        (sends_tables (get_all taken) [] refl))
      (delivers 0 told (tables_message (get_all taken)) [] refl refl)

to_closing-IsUnhurried : IsUnhurriedRun to_closing
unfolding new_tables put_client new_client make_initial_state send_initial_state queue_message
    deliver unhurried offer to_greeted to_closing take_snapshot send_snapshot
to_closing-IsUnhurried =
    ((
      (
        (((((((tt, tt), tt), tt), tt), tt), tt), (refl, refl)),
        (λ i c at_i staff. elim (Bool-cases (i == 0)) [
          | inl here ↦
              let same : shown_first ≡ c = cc (rw here at at_i) in
              subst (λ (x : Connection). IsRoomy x.send × (unhurried x.greeting ≡ true)) same
                (refl, refl)
          | inr there ↦ cc (rw there at at_i)
        ]),
      ),
      tt,
    ))

quiet_page_shows_tables_example :
    at_last.store.tables ≡ some (map state_of_cell (get_all closing.tables))
unfolding put_client new_tables is_staff deliver broadcast_to send_initial_state queue_message
    make_initial_state new_client take_snapshot send_snapshot
quiet_page_shows_tables_example =
    quiet_page_shows_tables opened closing 0 at_last to_closing to_closing-IsUnhurried (λ j. refl)
      (record { changed = refl; read = refl; sent = refl }) refl refl refl
      (record { changed = refl; read = refl; sent = refl }) refl

-- The light of the second table is on, and its card is clicked.
abbrev lit : Tables
lit = record (new_tables quiet quiet) { cell = λ i. record (new_cell i) { light = light_on } }

toggle_is_as_shown_example : IsDone 2 no_actions lit (one 2 off)
unfolding click state_of_cell light_text new_cell effective_status is_pending_text target_of
    is_on_text
toggle_is_as_shown_example =
    toggle_is_as_shown 2 2 no_actions lit (one 2 off) (omega arith) (omega arith) (omega arith)
      (omega arith) (λ k. refl) refl (inl refl)
