-- ===== src/Backend/Lights/Confirmed.antt =====
-- The acknowledgements that reach the server.
use gbc_smart_management.Base.{
  ℕ, zero, suc, ◌≤◌, Bool, true, false, not, ◌&&◌, ◌||◌, ◌≡◌, inl, inr, refl, sym, ◌∙◌, ap, subst,
  arith, List, ◌∷◌, Option, none, some, if◌then◌else◌, Bool-cases, Option-cases,
}
use gbc_smart_management.Backend.Tables.{
  Tables, Channel, LightCommand, LightStatus, is_meant, settled_light, final_of,
  confirm_light_status, set_lights, some_table, same_light, light_on, light_off, pending_on,
  pending_off, broadcast,
}
use gbc_smart_management.Backend.Lights.{Relay, Ack, Lights}
use gbc_smart_management.Backend.Lights.Told.{
  last_ack, echo_of, state_of, Told, is_commanded, relay_at, IsTold,
}

-- An acknowledgement that reaches the server.
some_table_at : (test : ℕ → Bool) (i : ℕ) → 1 ≤ i → i ≤ 4 → test i ≡ true → some_table test ≡ true
unfolding some_table
some_table_at test zero least most h = absurd (omega (arith, least))
some_table_at test (suc zero) least most h = rw h refl
some_table_at test (suc (suc zero)) least most h = rw h (ground arith)
some_table_at test (suc (suc (suc zero))) least most h = rw h (ground arith)
some_table_at test (suc (suc (suc (suc zero)))) least most h = rw h (ground arith)
some_table_at test (suc (suc (suc (suc (suc i))))) least most h = absurd (omega (arith, most))

same_light-eq : (a b : LightStatus) → same_light a b ≡ true → a ≡ b
unfolding same_light
same_light-eq light_on light_on h = refl
same_light-eq light_off light_off h = refl
same_light-eq pending_on pending_on h = refl
same_light-eq pending_off pending_off h = refl
same_light-eq a b h = cc

confirm-light :
    (i target : ℕ) (is_lit : Bool) (s : Tables)
    → 1 ≤ i
    → i ≤ 4
    → ((confirm_light_status target is_lit s).cell i).light
      ≡ (if is_meant target i then final_of is_lit else (s.cell i).light)
unfolding confirm_light_status broadcast set_lights
confirm-light i target is_lit s least most =
    let l = final_of is_lit in
    let test : ℕ → Bool = λ j. is_meant target j && not (same_light (s.cell j).light l) in
    elim (Bool-cases (some_table test)) [
      | inl changed ↦ rw changed (elim (Bool-cases (is_meant target i)) [
        | inl own ↦ rw own refl
        | inr other ↦ rw other refl
      ])
      | inr same ↦ rw same (elim (Bool-cases (is_meant target i)) [
        | inl own ↦ elim (Bool-cases (same_light (s.cell i).light l)) [
          | inl equal ↦ rw own (same_light-eq _ _ equal)
          | inr differs ↦ cc (same, some_table_at test i least most (rw (own, differs) refl))
        ]
        | inr other ↦ rw other refl
      ])
    ]

confirm-commands :
    (target : ℕ) (is_lit : Bool) (s : Tables)
    → (confirm_light_status target is_lit s).commands ≡ s.commands
unfolding confirm_light_status broadcast
confirm-commands target is_lit s = ground arith

settled_final : (v : Bool) → settled_light (final_of v) ≡ final_of v
unfolding settled_light final_of
settled_final true = refl
settled_final false = refl

-- Where an acknowledgement is under way, the light that is shown does not matter.
Told-anyway :
    (l l' : LightStatus) (state echo : Bool) (m : Option Bool)
    → m ≡ some echo
    → Told l state m
    → Told l' state m
Told-anyway l l' state echo m h told = subst (Told l' state) (sym h) (subst (Told l state) h told)

Told-own :
    (r : Relay) (m : Option Bool) (l : LightStatus) (v : Bool)
    → Told l (state_of r) (echo_of r (elim m [ none ↦ some v | some echo ↦ some echo ]))
    → Told (final_of v) (state_of r) (echo_of r m)
Told-own r (some echo) l v told = elim (Bool-cases (r.pending && r.has_command_id)) [
  | inl waits ↦
      Told-anyway l (final_of v) (state_of r) r.target_is_on (echo_of r (some echo)) (rw waits refl)
        told
  | inr free ↦
      Told-anyway l (final_of v) (state_of r) echo (echo_of r (some echo)) (rw free refl) told
]
Told-own r none l v told = elim (Bool-cases (r.pending && r.has_command_id)) [
  | inl waits ↦
      let same : echo_of r (some v) ≡ echo_of r none = rw waits refl in
      Told-anyway l (final_of v) (state_of r) r.target_is_on (echo_of r none) (rw waits refl)
        (subst (Told l (state_of r)) same told)
  | inr free ↦
      let last : echo_of r none ≡ none = rw free refl in
      let same : echo_of r (some v) ≡ some v = rw free refl in
      let known : v ≡ state_of r = subst (Told l (state_of r)) same told in
      subst (Told (final_of v) (state_of r)) (sym last) (settled_final v ∙ ap final_of known)
]

last_ack_head :
    (i : ℕ) (a : Ack) (rest : List Ack)
    → (is_meant a.table_id i ≡ true
        → last_ack i (a ∷ rest)
          ≡ elim (last_ack i rest) [ none ↦ some a.is_on | some echo ↦ some echo ])
      × (is_meant a.table_id i ≡ false → last_ack i (a ∷ rest) ≡ last_ack i rest)
last_ack_head i a rest = (
  λ own. elim (Option-cases (last_ack i rest)) [
    | inl here ↦ rw here (rw own refl)
    | inr (echo, here) ↦ rw here refl
  ],
  λ other. elim (Option-cases (last_ack i rest)) [
    | inl here ↦ rw here (rw other refl)
    | inr (echo, here) ↦ rw here refl
  ],
)

pub confirms_step :
    (i : ℕ) (a : Ack) (rest : List Ack) (s : Lights)
    → 1 ≤ i
    → i ≤ 4
    → s.controller.acks ≡ a ∷ rest
    → IsTold i s
    → IsTold i (record s {
      tables = confirm_light_status a.table_id a.is_on s.tables;
      controller = record (s.controller) { acks = rest };
    })
confirms_step i a rest s least most first (inl sent) = inl (
    ap (λ (c : Channel LightCommand). is_commanded i c.items || is_commanded i s.calls)
      (confirm-commands a.table_id a.is_on s.tables)
    ∙ sent)
confirms_step i a rest s least most first (inr told) =
    let r = relay_at i s.controller in
    let l = (s.tables.cell i).light in
    let echo = last_ack_head i a rest in
    let light = confirm-light i a.table_id a.is_on s.tables least most in
    let waits : Told l (state_of r) (echo_of r (last_ack i (a ∷ rest))) =
      subst (λ acks. Told l (state_of r) (echo_of r (last_ack i acks))) first told in
    elim (Bool-cases (is_meant a.table_id i)) [
      | inl own ↦
          let shown = light ∙ rw own refl in
          inr (
            subst (λ x. Told x (state_of r) (echo_of r (last_ack i rest))) (sym shown)
              (Told-own r (last_ack i rest) l a.is_on
                (subst (λ m. Told l (state_of r) (echo_of r m)) (echo.0 own) waits)))
      | inr other ↦
          let shown = light ∙ rw other refl in
          inr (
            subst (λ x. Told x (state_of r) (echo_of r (last_ack i rest))) (sym shown)
              (subst (λ m. Told l (state_of r) (echo_of r m)) (echo.1 other) waits))
    ]
