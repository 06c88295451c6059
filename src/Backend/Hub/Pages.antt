-- ===== src/Backend/Hub/Pages.antt =====
-- The pages show the tables of the server.
use gbc_smart_management.Base.{
  ℕ, ◌==◌, true, ◌≡◌, inl, inr, refl, sym, ◌∙◌, ap, subst, arith, List, [], ◌∷◌, ◌++◌, map, Option,
  none, some, Bool-cases, Option-cases,
}
use gbc_smart_management.Socket.{Payload}
use gbc_smart_management.Backend.Rows.{Row}
use gbc_smart_management.Backend.Tables.{offer, TableCell, get_all}
use gbc_smart_management.Backend.Hub.{
  Connection, queued, Hub, HubStep, changes, snaps, publishes, take_snapshot, send_snapshot, emits,
  registers, reads, greets, sends_tables, sends_timeline, delivers, unregisters, HubRun, begun,
  goes_on, broadcast_to_all, broadcast_to, tables_message, timeline_message, is_staff, IsRoomy,
  deliver, make_initial_state, send_initial_state, new_client, put_client, state_of_cell,
  queue_message,
}
use gbc_smart_management.Backend.Hub.Queues.{
  drain, drained, shown_as, tables_then, tables_then-current, tables-drained, timeline-drained,
  greeted-drained, received-initial,
}
use gbc_smart_management.Backend.Hub.Served.{
  IsMade, IsGreeted, IsServed, IsSettled, IsGreeted-drained, EndsIn-IsServed, last-IsSettled,
  tables_then_last, sent_before, unhurried,
}

-- The broadcasts that are under way: those of the channel, and those that are read and not yet sent.
abbrev coming : Hub → List (List TableCell)
coming h = h.tables.broadcasts.items ++ h.snapshots

-- Where no change waits to be read, what is under way ends in the tables of the server.
abbrev IsTrue : Hub → Type 0
IsTrue h = h.due ≡ 0 → IsSettled (coming h) (get_all h.tables) h.clients

abbrev IsCalm : Hub → Type 0
IsCalm h =
    (i : ℕ) (c : Connection)
    → h.clients i ≡ some c
    → is_staff c.role ≡ true
    → IsRoomy c.send × (unhurried c.greeting ≡ true)

-- What is read first is sent first, into a channel that has room; and the clients have room for what is sent
-- to them, none of which is between the reading and the queueing of its initial state then.
abbrev IsUnhurried : {h k : Hub} → HubStep h k → Type 0
IsUnhurried (changes cell change) = Unit
IsUnhurried (snaps n waits) = Unit
IsUnhurried {h} (publishes before ts after read) = (before ≡ []) × IsRoomy h.tables.broadcasts
IsUnhurried (emits rows) = Unit
IsUnhurried (registers i role store free) = Unit
IsUnhurried (reads i c rows at_i first) = Unit
IsUnhurried (greets i c m at_i own room) = Unit
IsUnhurried {h} (sends_tables ts rest first) = IsCalm h
IsUnhurried (sends_timeline rows rest first) = Unit
IsUnhurried (delivers i c m rest at_i first) = Unit
IsUnhurried (unregisters i) = Unit

abbrev pub IsUnhurriedRun : {h k : Hub} → HubRun h k → Type 0
IsUnhurriedRun begun = Unit
IsUnhurriedRun (goes_on run step) = IsUnhurriedRun run × IsUnhurried step

-- A client that is put in place of another.
module _ (items : List (List TableCell)) (now : List TableCell) (h : Hub)
    (t : IsSettled items now h.clients) where
  put_client-IsSettled :
      (i : ℕ) (o : Option Connection)
      → ((c : Connection) → o ≡ some c → is_staff c.role ≡ true → IsServed items now c)
      → IsSettled items now (put_client i o h).clients
  unfolding put_client
  put_client-IsSettled i o own = record {
    latest = t.latest;
    pages = λ j c at_j. elim (Bool-cases (j == i)) [
      | inl same ↦ own c (rw same at at_j)
      | inr other ↦ t.pages j c (rw other at at_j)
    ];
  }

  put_some-IsSettled :
      (i : ℕ) (d : Connection)
      → (is_staff d.role ≡ true → IsServed items now d)
      → IsSettled items now (put_client i (some d) h).clients
  put_some-IsSettled i d own = put_client-IsSettled i (some d) (λ c e.
      let same : d ≡ c = cc e in
      subst (λ x. is_staff x.role ≡ true → IsServed items now x) same own)

broadcast_to-kept :
    (m : Payload) (c : Connection)
    → ((broadcast_to m c).role ≡ c.role) × ((broadcast_to m c).greeting ≡ c.greeting)
unfolding broadcast_to queue_message
broadcast_to-kept m c = ground arith

-- A property of the clients after a broadcast, from one of those before it.
broadcast_to_all-some :
    (P : Connection → Type 0) (m : Payload) (clients : ℕ → Option Connection)
    → ((i : ℕ) (c : Connection) → clients i ≡ some c → P (broadcast_to m c))
    → (i : ℕ) (d : Connection) → broadcast_to_all m clients i ≡ some d
    → P d
unfolding broadcast_to_all
broadcast_to_all-some P m clients own i d h = elim (Option-cases (clients i)) [
  | inl gone ↦ cc (rw (broadcast_to_all, gone) at h)
  | inr (c, there) ↦
      let same : broadcast_to m c ≡ d = cc (rw (broadcast_to_all, there) at h) in
      subst P same (own i c there)
]

sends_tables-IsSettled :
    (h : Hub) (now ts : List TableCell) (rest : List (List TableCell))
    → IsSettled (ts ∷ rest) now h.clients
    → IsCalm h
    → IsSettled rest now (broadcast_to_all (tables_message ts) h.clients)
sends_tables-IsSettled h now ts rest t calm =
    let ends : tables_then rest (shown_as ts) ≡ shown_as now = t.latest in
    record {
      latest = tables_then-current ts now rest ends;
      pages =
          broadcast_to_all-some (λ d. is_staff d.role ≡ true → IsServed rest now d)
            (tables_message ts) h.clients
            (λ i c there staff.
              let (same_role, same_greeting) = broadcast_to-kept (tables_message ts) c in
              let of_staff : is_staff c.role ≡ true = sym (ap is_staff same_role) ∙ staff in
              let (room, settled) = calm i c there of_staff in
              let (own, page) =
                EndsIn-IsServed rest now (broadcast_to (tables_message ts) c) _
                  (ap unhurried same_greeting ∙ settled)
                  (ap (tables_then rest) (tables-drained c ts of_staff room) ∙ ends) in
              record { own = own; page = page });
    }

sends_timeline-IsSettled :
    (h : Hub) (items : List (List TableCell)) (now : List TableCell) (rows : List Row)
    → IsSettled items now h.clients
    → IsSettled items now (broadcast_to_all (timeline_message rows) h.clients)
sends_timeline-IsSettled h items now rows t =
    let m = timeline_message rows in
    record {
      latest = t.latest;
      pages =
          broadcast_to_all-some (λ d. is_staff d.role ≡ true → IsServed items now d) m h.clients
            (λ i c there staff.
              let (same_role, same_greeting) = broadcast_to-kept m c in
              let served = t.pages i c there (sym (ap is_staff same_role) ∙ staff) in
              record {
                own = subst (IsMade items now) (sym same_greeting) served.own;
                page = subst (IsGreeted items now (broadcast_to m c)) (sym same_greeting) (
                    IsGreeted-drained items now c (broadcast_to m c) c.greeting
                      (timeline-drained c rows) served.page);
              });
    }

-- A broadcast that is sent stays among those under way.
send_snapshot-coming :
    (before : List (List TableCell)) (ts : List TableCell) (after : List (List TableCell)) (h : Hub)
    → before ≡ []
    → IsRoomy h.tables.broadcasts
    → h.snapshots ≡ before ++ ts ∷ after
    → coming h ≡ coming (send_snapshot ts (before ++ after) h)
unfolding send_snapshot offer
send_snapshot-coming before ts after h first room read =
    ap (λ xs. h.tables.broadcasts.items ++ xs) (read ∙ ap (λ xs. xs ++ ts ∷ after) first)
    ∙ sym (sent_before h.tables.broadcasts.items after ts)
    ∙ rw (room, first) refl

snapped :
    (n : ℕ) (h : Hub)
    → let k = take_snapshot n h in IsSettled (coming k) (get_all k.tables) k.clients
unfolding take_snapshot get_all
snapped n h =
    last-IsSettled (h.tables.broadcasts.items ++ (h.snapshots ++ get_all h.tables ∷ []))
      (get_all h.tables) (tables_then_last h.tables.broadcasts.items h.snapshots (get_all h.tables))
      h.clients

published :
    (before : List (List TableCell)) (ts : List TableCell) (after : List (List TableCell)) (h : Hub)
    → coming h ≡ coming (send_snapshot ts (before ++ after) h)
    → IsSettled (coming h) (get_all h.tables) h.clients
    → let k = send_snapshot ts (before ++ after) h in
      IsSettled (coming k) (get_all k.tables) k.clients
unfolding send_snapshot get_all
published before ts after h same t = subst (λ xs. IsSettled xs (get_all h.tables) h.clients) same t

HubStep-IsTrue : {h k : Hub} (step : HubStep h k) → IsUnhurried step → IsTrue h → IsTrue k
unfolding new_client deliver make_initial_state send_initial_state queue_message put_client
    take_snapshot get_all send_snapshot
HubStep-IsTrue {h} (changes cell change) calm t = λ e. cc e
HubStep-IsTrue {h} (snaps n waits) calm t = λ e. snapped n h
HubStep-IsTrue {h} (publishes before ts after read) (first, room) t =
    λ e. published before ts after h (send_snapshot-coming before ts after h first room read) (t e)
HubStep-IsTrue {h} (emits rows) calm t = t
HubStep-IsTrue {h} (registers i role store free) calm t = λ e.
    put_some-IsSettled (coming h) (get_all h.tables) h (t e) i (new_client role store)
      (λ staff. record { own = tt; page = tt })
HubStep-IsTrue {h} (reads i c rows at_i first) calm t = λ e.
    put_some-IsSettled (coming h) (get_all h.tables) h (t e) i (make_initial_state rows h c)
      (λ staff. record {
        own = λ store.
            ap (tables_then (coming h)) (received-initial (get_all h.tables) _ store)
            ∙ (t e).latest;
        page = tt;
      })
HubStep-IsTrue {h} (greets i c m at_i made_it room) calm t = λ e.
    put_some-IsSettled (coming h) (get_all h.tables) h (t e) i (send_initial_state m c) (λ staff.
      let served = (t e).pages i c at_i staff in
      record {
        own = tt;
        page =
            ap (tables_then (coming h)) (greeted-drained c m room)
            ∙ subst (IsMade (coming h) (get_all h.tables)) made_it served.own
                (drain c.send.items c.store);
      })
HubStep-IsTrue {h} (sends_tables ts rest first) calm t = λ e.
    sends_tables-IsSettled h (get_all h.tables) ts (rest ++ h.snapshots)
      (subst (λ xs. IsSettled (xs ++ h.snapshots) (get_all h.tables) h.clients) first (t e)) calm
HubStep-IsTrue {h} (sends_timeline rows rest first) calm t =
    λ e. sends_timeline-IsSettled h (coming h) (get_all h.tables) rows (t e)
HubStep-IsTrue {h} (delivers i c m rest at_i first) calm t = λ e.
    put_some-IsSettled (coming h) (get_all h.tables) h (t e) i (deliver m rest c) (λ staff.
      let served = (t e).pages i c at_i staff in
      record {
        own = served.own;
        page =
            IsGreeted-drained (coming h) (get_all h.tables) c (deliver m rest c) c.greeting
              (ap (λ ms. (drain ms c.store).tables) (sym first)) served.page;
      })
HubStep-IsTrue {h} (unregisters i) calm t =
    λ e. put_client-IsSettled (coming h) (get_all h.tables) h (t e) i none (λ c x. cc x)

HubRun-IsTrue : {h k : Hub} (run : HubRun h k) → IsUnhurriedRun run → IsTrue h → IsTrue k
HubRun-IsTrue begun calm t = t
HubRun-IsTrue (goes_on run step) (before, calm) t =
    HubStep-IsTrue step calm (HubRun-IsTrue run before t)

-- No operation is between the change of the tables and the sending of its broadcast.
pub record IsIdle (h : Hub) : Type 0 where
  pub changed : h.due ≡ 0
  pub read : h.snapshots ≡ []
  pub sent : h.tables.broadcasts.items ≡ []

IsIdle-coming : (h : Hub) → IsIdle h → coming h ≡ []
IsIdle-coming h idle = rw (idle.sent, idle.read) refl

-- From a hub without clients and without broadcasts on, whatever the operations of the cache make of
-- the tables, each with the change, the reading and the sending of its broadcast as three steps between
-- which others can come, whoever connects, and in whatever order the hub, its clients and their pages
-- take what is queued for them: the page of an administrator or of the staff whose initial state was queued
-- shows the tables of the server, when no broadcast and no message to it is under way. What was read first
-- is sent first, into a channel that has room, and whenever the tables are sent to the clients, the
-- buffer of each such client has room and its initial state is not between being read and being
-- queued.
pub quiet_page_shows_tables :
    (h k : Hub) (i : ℕ) (c : Connection) (run : HubRun h k)
    → IsUnhurriedRun run
    → ((j : ℕ) → h.clients j ≡ none)
    → IsIdle h
    → k.clients i ≡ some c
    → is_staff c.role ≡ true
    → c.greeting ≡ queued
    → IsIdle k
    → c.send.items ≡ []
    → c.store.tables ≡ some (map state_of_cell (get_all k.tables))
quiet_page_shows_tables h k i c run calm free empty at_i staff greeted sent delivered =
    let start : IsTrue h = λ e. record {
      latest =
          ap (λ items. tables_then items (shown_as (get_all h.tables))) (IsIdle-coming h empty);
      pages = λ j d at_j s. cc (free j, at_j);
    } in
    let served = (HubRun-IsTrue run calm start sent.changed).pages i c at_i staff in
    ap (λ ms. (drain ms c.store).tables) (sym delivered)
    ∙ ap (λ items. tables_then items (drained c)) (sym (IsIdle-coming k sent))
    ∙ subst (IsGreeted (coming k) (get_all k.tables) c) greeted served.page
