-- ===== src/Backend/Hub/Queues.antt =====
-- What the page at a client will show of the tables once all that is under way has arrived.
use gbc_smart_management.Base.{
  ltb, length, true, false, ◌≡◌, inl, inr, refl, ◌∙◌, ap, List, [], ◌∷◌, ◌++◌, map, Option, none,
  some, Bool-cases,
}
use gbc_smart_management.Store.{Store, TableState, set_tables, set_timeline}
use gbc_smart_management.Socket.{Payload}
use gbc_smart_management.Socket.Messages.{received}
use gbc_smart_management.Backend.Rows.{Row}
use gbc_smart_management.Backend.Tables.{offer, TableCell}
use gbc_smart_management.Backend.Hub.{
  Connection, tables_message, timeline_message, initial_message, state_of_cell, queue_message,
  broadcast_to, is_staff, IsRoomy, send_initial_state,
}

abbrev pub drain : List Payload → Store → Store
drain [] s = s
drain (m ∷ ms) s = drain ms (received m s)

abbrev pub shown_as : List TableCell → Option (List TableState)
shown_as ts = some (map state_of_cell ts)

-- The last of the broadcasts that are under way counts.
abbrev pub tables_then : List (List TableCell) → Option (List TableState) → Option (List TableState)
tables_then [] shown = shown
tables_then (ts ∷ more) shown = tables_then more (shown_as ts)

drain-end :
    (ms : List Payload) (m : Payload) (s : Store) → drain (ms ++ m ∷ []) s ≡ received m (drain ms s)
drain-end [] m s = refl
drain-end (n ∷ ms) m s = drain-end ms m (received n s)

pub tables_then-end :
    (items : List (List TableCell)) (ts : List TableCell) (shown : Option (List TableState))
    → tables_then (items ++ ts ∷ []) shown ≡ shown_as ts
tables_then-end [] ts shown = refl
tables_then-end (x ∷ items) ts shown = tables_then-end items ts (shown_as x)

-- What is under way does not depend on the tables before, where it is anything.
pub tables_then-current :
    (ts now : List TableCell) (rest : List (List TableCell))
    → tables_then rest (shown_as ts) ≡ shown_as now
    → tables_then rest (shown_as now) ≡ shown_as now
tables_then-current ts now [] h = refl
tables_then-current ts now (x ∷ rest) h = h

received-tables :
    (ts : List TableCell) (s : Store) → (received (tables_message ts) s).tables ≡ shown_as ts
unfolding received tables_message set_tables
received-tables ts s = refl

received-timeline :
    (rows : List Row) (s : Store) → (received (timeline_message rows) s).tables ≡ s.tables
unfolding received timeline_message set_timeline
received-timeline rows s = refl

pub received-initial :
    (ts : List TableCell) (rows : Option (List Row)) (s : Store)
    → (received (initial_message ts rows) s).tables ≡ shown_as ts
unfolding received initial_message set_timeline set_tables
received-initial ts none s = refl
received-initial ts (some rows) s = refl

abbrev pub drained : Connection → Option (List TableState)
drained c = (drain c.send.items c.store).tables

module _ (c : Connection) where
  queue_message-items :
      (m : Payload) → IsRoomy c.send → (queue_message m c).send.items ≡ c.send.items ++ m ∷ []
  unfolding queue_message offer
  queue_message-items m room = rw room refl

  queued-drained :
      (m : Payload)
      → IsRoomy c.send
      → drained (queue_message m c) ≡ (received m (drain c.send.items c.store)).tables
  unfolding queue_message
  queued-drained m room =
      ap (λ ms. (drain ms c.store).tables) (queue_message-items m room)
      ∙ ap (λ (s : Store). s.tables) (drain-end c.send.items m c.store)

  dropped :
      (m : Payload) → ltb (length c.send.items) c.send.capacity ≡ false → queue_message m c ≡ c
  unfolding queue_message offer
  dropped m full = rw full refl

  pub tables-drained :
      (ts : List TableCell)
      → is_staff c.role ≡ true
      → IsRoomy c.send
      → drained (broadcast_to (tables_message ts) c) ≡ shown_as ts
  unfolding broadcast_to
  tables-drained ts staff room =
      rw staff (queued-drained (tables_message ts) room ∙ received-tables ts _)

  -- A timeline that does not fit is dropped.
  pub timeline-drained :
      (rows : List Row) → drained (broadcast_to (timeline_message rows) c) ≡ drained c
  unfolding broadcast_to
  timeline-drained rows = elim (Bool-cases (is_staff c.role)) [
    | inl staff ↦ rw staff (elim (Bool-cases (ltb (length c.send.items) c.send.capacity)) [
      | inl room ↦ queued-drained (timeline_message rows) room ∙ received-timeline rows _
      | inr full ↦ ap drained (dropped (timeline_message rows) full)
    ])
    | inr other ↦ rw other refl
  ]

  pub greeted-drained :
      (m : Payload)
      → IsRoomy c.send
      → drained (send_initial_state m c) ≡ (received m (drain c.send.items c.store)).tables
  unfolding send_initial_state
  greeted-drained m room = queued-drained m room
