-- ===== src/SettingsForm/Saving.antt =====
-- What a saving keeps, and what its messages tell.
use gbc_smart_management.Base.{
  ℕ, true, false, [], ◌∷◌, Option, none, some, ◌≡◌, ◌≢◌, ◌↔◌, refl, arith, ap, sym,
}
use gbc_smart_management.Config.{hourly_rate_of}
use gbc_smart_management.SettingsForm.{
  SettingsFields, SettingsForm, failure, rate_field, fields_of, rate_sent, config_sent,
  config_fetched, handle_save, save_answered, timer_fires, presses, answers, fires, form_step,
  run_form,
}

rate_field_iff : (r : ℕ) → (rate_field r ≡ some r) ↔ (r ≢ 0)
unfolding rate_field
rate_field_iff r = ground arith

field_kept :
    (o : Option ℕ) (r : ℕ)
    → o ≡ some r
    → ((rate_field (rate_sent o) ≡ o) ↔ (r ≢ 0))
      × ((hourly_rate_of (some (config_sent (record { rate = o; opening = []; closing = [] }))) ≡ r)
          ↔ (r ≢ 0))
unfolding rate_sent hourly_rate_of config_sent
field_kept o r e = rw e (rate_field_iff r, ground arith)

-- The form that reads back what it has sent shows the fields it had exactly where its rate is not 0, and
-- exactly then the booking form charges that rate.
pub config_sent_kept :
    (c : SettingsFields) (r : ℕ) (s : SettingsForm)
    → c.rate ≡ some r
    → (((config_fetched (some (some (config_sent c))) s).config ≡ c) ↔ (r ≢ 0))
      × ((hourly_rate_of (some (config_sent c)) ≡ r) ↔ (r ≢ 0))
unfolding config_fetched config_sent fields_of rate_sent rate_field hourly_rate_of
config_sent_kept c r s e =
    let kept = field_kept c.rate r e in
    (((λ h. kept.0.0 (ap (λ f. f.rate) h)), λ n i. record c { rate = kept.0.1 n i }), kept.1)

-- From a form that is not being saved: after a saving that succeeds and one that fails, the failure is
-- shown; but the timer of the first is still set, and when it fires the message is gone, and the form is
-- as before the two savings.
pub earlier_timer_hides_failure :
    (s : SettingsForm)
    → s.is_saving ≡ false
    → s.request ≡ none
    → let failed = run_form (presses ∷ answers true ∷ presses ∷ answers false ∷ []) s in
      (failed.save_status ≡ some failure)
      × (run_form (fires ∷ []) failed ≡ record s { save_status = none })
unfolding run_form form_step handle_save save_answered timer_fires
earlier_timer_hides_failure s e f =
    simp e (refl, λ i. record s { is_saving = false; save_status = none; request = sym f i })
