-- ===== src/Backend/Lights/Agreement.antt =====
-- The lights that the server shows are those of the controller.
use gbc_smart_management.Base.{
  ℕ, ◌≤◌, true, false, ◌≡◌, inl, inr, refl, subst, arith, [], Option, none, some, some_by,
}
use gbc_smart_management.Backend.Tables.{settled_light, final_of, is_meant}
use gbc_smart_management.Backend.Lights.{
  Relay, Lights, HasRoom, LightStep, changes, sends, receives, loses, switches, finishes, confirms,
  LightRun, idle, and_then, has_waited,
}
use gbc_smart_management.Backend.Lights.Told.{
  last_ack, echo_of, state_of, Told, effective, relay_at, is_asked, IsTold, changes_step,
  sends_step,
}
use gbc_smart_management.Backend.Lights.Relays.{receives_step, switches_step, finishes_step}
use gbc_smart_management.Backend.Lights.Confirmed.{confirms_step}

-- Commands are sent in the order of their changes, into a channel that has room; none is lost; and none reaches
-- the controller for a relay whose switching has begun and not ended.
abbrev IsUndisturbed : {s t : Lights} → LightStep s t → Type 0
IsUndisturbed (changes cell c change) = Unit
IsUndisturbed {s} (sends before c after first) = (before ≡ []) × HasRoom s.tables
IsUndisturbed {s} (receives now c rest first) =
    (j : ℕ) → s.controller.switching ≡ some j → is_meant c.table_id j ≡ false
IsUndisturbed (loses c rest first) = false ≡ true
IsUndisturbed (switches now i least free is_late) = Unit
IsUndisturbed (finishes i busy) = Unit
IsUndisturbed (confirms a rest first) = Unit

abbrev pub IsUndisturbedRun : {s t : Lights} → LightRun s t → Type 0
IsUndisturbedRun idle = Unit
IsUndisturbedRun (and_then run step) = IsUndisturbedRun run × IsUndisturbed step

due-pending : (now : ℕ) (r : Relay) → has_waited now r ≡ true → r.pending ≡ true
unfolding has_waited
due-pending now r h = ground arith

LightStep-IsTold :
    (i : ℕ) {s t : Lights}
    → 1 ≤ i
    → i ≤ 4
    → (step : LightStep s t) → IsUndisturbed step
    → IsTold i s
    → IsTold i t
LightStep-IsTold i {s} least most (changes cell c change) calm = changes_step i s cell c change
LightStep-IsTold i {s} least most (sends before c after waits) (first, room) =
    sends_step i s before c after first room waits
LightStep-IsTold i {s} least most (receives now c rest head) free =
    receives_step i least most now c rest s head free
LightStep-IsTold i {s} least most (loses c rest head) never = λ told. cc never
LightStep-IsTold i {s} least most (switches now j first free is_late) calm =
    switches_step i least most j s first free (due-pending now (s.controller.relay j) is_late)
LightStep-IsTold i {s} least most (finishes j busy) calm = finishes_step i least most j s busy
LightStep-IsTold i {s} least most (confirms a rest head) calm =
    confirms_step i a rest s least most head

LightRun-IsTold :
    (i : ℕ) {s t : Lights}
    → 1 ≤ i
    → i ≤ 4
    → (run : LightRun s t) → IsUndisturbedRun run
    → IsTold i s
    → IsTold i t
LightRun-IsTold i least most idle calm told = told
LightRun-IsTold i least most (and_then run step) (before, calm) told =
    LightStep-IsTold i least most step calm (LightRun-IsTold i least most run before told)

-- Nothing is under way, and the relay of the table has no state to take.
pub record IsQuiet (i : ℕ) (s : Lights) : Type 0 where
  pub calls : s.calls ≡ []
  pub commands : s.tables.commands.items ≡ []
  pub acks : s.controller.acks ≡ []
  pub relay : (s.controller.relay i).pending ≡ false

-- The light that is shown, or awaited where nothing is confirmed, is the one of the relay.
abbrev pub Agrees : ℕ → Lights → Type 0
Agrees i s = settled_light (s.tables.cell i).light ≡ final_of (s.controller.relay i).is_on

effective-still :
    (sw : Option ℕ) (i : ℕ) (r : Relay)
    → r.pending ≡ false
    → ((effective sw i r).pending ≡ false) × ((effective sw i r).is_on ≡ r.is_on)
effective-still none i r h = (h, refl)
effective-still (some j) i r h = ground (arith, h)

IsQuiet-IsTold : (i : ℕ) (s : Lights) → IsQuiet i s → Agrees i s → IsTold i s
IsQuiet-IsTold i s quiet h =
    let (still, same) =
      effective-still s.controller.switching i (s.controller.relay i) quiet.relay in
    inr (rw (quiet.acks, still, same) h)

not_asked : (i : ℕ) (s : Lights) → IsQuiet i s → is_asked i s ≡ false
unfolding some_by
not_asked i s quiet = rw (quiet.commands, quiet.calls) refl

IsTold-Agrees : (i : ℕ) (s : Lights) → IsQuiet i s → IsTold i s → Agrees i s
IsTold-Agrees i s quiet (inl sent) = cc (sent, not_asked i s quiet)
IsTold-Agrees i s quiet (inr told) =
    let r = relay_at i s.controller in
    let l = (s.tables.cell i).light in
    let (still, same) =
      effective-still s.controller.switching i (s.controller.relay i) quiet.relay in
    let echo : echo_of r (last_ack i s.controller.acks) ≡ none = rw (quiet.acks, still) refl in
    let state : state_of r ≡ (s.controller.relay i).is_on = rw (still, same) refl in
    subst (λ b. settled_light l ≡ final_of b) state (subst (Told l (state_of r)) echo told)

-- A table from 1 to 4, and a state in which nothing is under way and its light agrees. Whatever the
-- operations of the server then make of the tables and the commands, with the change and the sending as
-- two steps, at whatever times the controller takes the commands and its relays follow, and whenever
-- the acknowledgements arrive: when nothing is under way again, the light that the server shows agrees
-- with the relay. Commands are sent in the order of the changes, into a channel that has room, while the
-- MQTT client is connected. The controller handles a command as one step, which does not come while the
-- loop is between the test of a relay that the command is for and the reset of its `pending`.
pub quiet_lights_agree :
    (s t : Lights) (i : ℕ)
    → 1 ≤ i
    → i ≤ 4
    → IsQuiet i s
    → Agrees i s
    → (run : LightRun s t) → IsUndisturbedRun run
    → IsQuiet i t
    → Agrees i t
quiet_lights_agree s t i least most quiet agrees run calm after =
    IsTold-Agrees i t after
      (LightRun-IsTold i least most run calm (IsQuiet-IsTold i s quiet agrees))
