-- ===== src/Backend/Lights/Relays.antt =====
-- The messages that reach the controller, and its relays.
use gbc_smart_management.Base.{
  ℕ, ◌≤◌, ◌==◌, true, false, ◌||◌, ◌≡◌, inl, inr, refl, sym, ◌∙◌, ap, subst, arith, List, ◌∷◌,
  Option, none, some, some_by, Bool-cases, ==_iff,
}
use gbc_smart_management.Backend.Tables.{LightCommand, is_meant}
use gbc_smart_management.Backend.Lights.{
  Relay, Controller, Lights, queue_state, queue_state_all, acknowledge, receive_command,
  is_on_command, switch_relay, finish_relay, taken_from,
}
use gbc_smart_management.Backend.Lights.Told.{
  last_ack, echo_of, state_of, Told, is_commanded, effective, relay_at, is_asked, IsTold,
  last_ack_end,
}

-- A message that reaches the controller.
module _ (i : ℕ) (least : 1 ≤ i) (most : i ≤ 4) where
  receive_own :
      (now : ℕ) (c : LightCommand) (d : Controller)
      → is_meant c.table_id i ≡ true
      → let u = receive_command now c d in
        (echo_of (u.relay i) (last_ack i u.acks) ≡ some (is_on_command c))
        × (state_of (u.relay i) ≡ is_on_command c)
  unfolding receive_command queue_state queue_state_all acknowledge is_meant
  receive_own now c d own =
      ground (arith, last_ack_end i (record { table_id = 0; is_on = is_on_command c }) d.acks)

  receive_other :
      (now : ℕ) (c : LightCommand) (d : Controller)
      → is_meant c.table_id i ≡ false
      → let u = receive_command now c d in
        (u.relay i ≡ d.relay i) × (last_ack i u.acks ≡ last_ack i d.acks)
  unfolding receive_command queue_state queue_state_all acknowledge is_meant
  receive_other now c d other = ground arith

  receive_switching :
      (now : ℕ) (c : LightCommand) (d : Controller)
      → (receive_command now c d).switching ≡ d.switching
  unfolding receive_command queue_state queue_state_all acknowledge
  receive_switching now c d = ground arith

  -- A relay that the loop is not in the middle of.
  effective-free :
      (sw : Option ℕ) (r : Relay)
      → ((j : ℕ) → sw ≡ some j → (j == i) ≡ false)
      → effective sw i r ≡ r
  effective-free none r free = refl
  effective-free (some j) r free = rw (free j refl) refl

  pub receives_step :
      (now : ℕ) (c : LightCommand) (rest : List LightCommand) (s : Lights)
      → s.tables.commands.items ≡ c ∷ rest
      → ((j : ℕ) → s.controller.switching ≡ some j → is_meant c.table_id j ≡ false)
      → IsTold i s
      → IsTold i (record s {
        tables = taken_from rest s.tables;
        controller = receive_command now c s.controller;
      })
  unfolding some_by
  receives_step now c rest s first free told =
      let d = s.controller in
      let sw = receive_switching now c d in
      elim (Bool-cases (is_commanded i rest || is_commanded i s.calls)) [
        | inl later ↦ inl later
        | inr last ↦ elim (Bool-cases (is_meant c.table_id i)) [
          | inl own ↦
              let (echo, state) = receive_own now c d own in
              let r = (receive_command now c d).relay i in
              let same : effective d.switching i r ≡ r =
                effective-free d.switching r
                  (λ j at_j. ground (arith, ==_iff j i, own, free j at_j)) in
              inr (rw (sw, same, echo, state) refl)
          | inr other ↦
              let (relay, acks) = receive_other now c d other in
              let none_sent : is_asked i s ≡ false =
                ap (λ xs. is_commanded i xs || is_commanded i s.calls) first
                ∙ ground (arith, other, last) in
              elim told [
                | inl sent ↦ cc (sent, none_sent)
                | inr waits ↦ inr (rw (sw, relay, acks) waits)
              ]
        ]
      ]

  -- The loop switches a relay: what the server is told, and the state, are those that waited.
  switch_told :
      (j : ℕ) (d : Controller)
      → 1 ≤ j
      → (d.relay j).pending ≡ true
      → let u = switch_relay j d in
        (echo_of (effective (some j) i (u.relay i)) (last_ack i u.acks)
          ≡ echo_of (d.relay i) (last_ack i d.acks))
        × (state_of (effective (some j) i (u.relay i)) ≡ state_of (d.relay i))
  unfolding switch_relay acknowledge is_meant
  switch_told j d first waits = elim (Bool-cases (i == j)) [
    | inl same ↦
        let here : j ≡ i = sym ((==_iff i j).0 same) in
        rw here (
          ground (
            arith,
            last_ack_end i (record { table_id = i; is_on = (d.relay i).target_is_on }) d.acks,
            subst (λ k. (d.relay k).pending ≡ true) here waits,
          ))
    | inr other ↦ ground (
      arith,
      ==_iff i j,
      ==_iff j i,
      last_ack_end i (record { table_id = j; is_on = (d.relay j).target_is_on }) d.acks,
    )
  ]

  switch_switching : (j : ℕ) (d : Controller) → (switch_relay j d).switching ≡ some j
  unfolding switch_relay acknowledge
  switch_switching j d = ground arith

  pub switches_step :
      (j : ℕ) (s : Lights)
      → 1 ≤ j
      → s.controller.switching ≡ none
      → (s.controller.relay j).pending ≡ true
      → IsTold i s
      → IsTold i (record s { controller = switch_relay j s.controller })
  switches_step j s first idle waits (inl sent) = inl sent
  switches_step j s first idle waits (inr told) =
      let d = s.controller in
      let (echo, state) = switch_told j d first waits in
      let before : Told (s.tables.cell i).light (state_of (d.relay i))
          (echo_of (d.relay i) (last_ack i d.acks)) =
        subst
          (λ sw.
            Told (s.tables.cell i).light (state_of (effective sw i (d.relay i)))
              (echo_of (effective sw i (d.relay i)) (last_ack i d.acks)))
          idle told in
      inr (rw (switch_switching j d, echo, state) before)

  finish-effective :
      (j : ℕ) (d : Controller) → d.switching ≡ some j → relay_at i (finish_relay j d) ≡ relay_at i d
  unfolding finish_relay
  finish-effective j d busy = rw busy (elim (Bool-cases (i == j)) [
    | inl same ↦ let here : j ≡ i = sym ((==_iff i j).0 same) in rw here (ground arith)
    | inr other ↦ ground (arith, ==_iff i j, ==_iff j i)
  ])

  finish-acks : (j : ℕ) (d : Controller) → (finish_relay j d).acks ≡ d.acks
  unfolding finish_relay
  finish-acks j d = refl

  pub finishes_step :
      (j : ℕ) (s : Lights)
      → s.controller.switching ≡ some j
      → IsTold i s
      → IsTold i (record s { controller = finish_relay j s.controller })
  finishes_step j s busy (inl sent) = inl sent
  finishes_step j s busy (inr told) =
      inr (rw (finish-effective j s.controller busy, finish-acks j s.controller) told)
