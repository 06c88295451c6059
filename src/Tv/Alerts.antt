-- ===== src/Tv/Alerts.antt =====
-- Which sounds a table plays, over any run of frames.
use gbc_smart_management.Base.{
  ℕ, suc, ◌+◌, Bool, true, false, not, ◌&&◌, ◌||◌, if◌then◌else◌, List, [], ◌∷◌, ◌++◌, map, ◌≡◌,
  ◌∙◌, inl, inr, refl, arith, ◌==◌, ==_iff, Bool-cases,
}
use gbc_smart_management.Store.{TableState}
use gbc_smart_management.Tv.{
  Card, card_of, Sound, started, ending_soon, final_minutes, ended, Alerted, play_once, is_due,
  alert_sounds, alert_flags, PreviousStates, run_effect, Played, run_frames,
}

-- The flag of a sound.
abbrev pub flag_of : Sound → Alerted → Bool
flag_of started a = a.alerted_started
flag_of ending_soon a = a.alerted_ending_soon
flag_of final_minutes a = a.alerted_final
flag_of ended a = a.alerted_ended

abbrev pub same_sound : Sound → Sound → Bool
same_sound started started = true
same_sound ending_soon ending_soon = true
same_sound final_minutes final_minutes = true
same_sound ended ended = true
same_sound _ _ = false

-- How often a table plays a sound.
unfoldable pub count_played : ℕ → Sound → List Played → ℕ
count_played id s [] = 0
count_played id s (p ∷ ps) =
    if p.table_id == id && same_sound s p.sound
    then suc (count_played id s ps)
    else count_played id s ps

-- The frame falls into the time in which its table is to play the sound.
unfoldable pub calls_for : ℕ → Sound → TableState × ℕ → Bool
calls_for id s f = f.0.table_id == id && ((card_of f.0 f.1).is_busy && is_due s (card_of f.0 f.1))

unfoldable pub some_calls : ℕ → Sound → List (TableState × ℕ) → Bool
some_calls id s [] = false
some_calls id s (f ∷ fs) = calls_for id s f || some_calls id s fs

module _ (id : ℕ) (s : Sound) where
  count_played-append :
      (ps qs : List Played)
      → count_played id s (ps ++ qs) ≡ count_played id s ps + count_played id s qs
  unfolding count_played
  count_played-append [] qs = omega arith
  count_played-append (p ∷ ps) qs = ground (arith, count_played-append ps qs)

  module _ (table : ℕ) where
    -- How often it plays the sound, of what `table` plays.
    abbrev plays : List Sound → ℕ
    plays xs = count_played id s (map (λ x. record { table_id = table; sound = x }) xs)

    plays-append : (xs ys : List Sound) → plays (xs ++ ys) ≡ plays xs + plays ys
    unfolding count_played
    plays-append [] ys = omega arith
    plays-append (x ∷ xs) ys = ground (arith, plays-append xs ys)

    plays-play_once :
        (due flag : Bool) (x : Sound)
        → plays (play_once due flag x)
          ≡ (if (table == id) && (same_sound s x && (due && not flag)) then 1 else 0)
    unfolding count_played play_once
    plays-play_once false flag x = ground arith
    plays-play_once true true x = ground arith
    plays-play_once true false x = ground arith

abbrev one_if : Bool → ℕ
one_if b = if b then 1 else 0

-- What one frame plays.
module _ (id table : ℕ) (c : Card) (a : Alerted) where
  once : Sound → List Sound
  once x = play_once (is_due x c) (flag_of x a) x

  one : Sound → Sound → ℕ
  one s x = if (table == id) && (same_sound s x && (is_due x c && not (flag_of x a))) then 1 else 0

  plays-once : (s x : Sound) → plays id s table (once x) ≡ one s x
  unfolding once one
  plays-once s x = plays-play_once id s table (is_due x c) (flag_of x a) x

  four_plays :
      (s : Sound)
      → plays id s table (once started ++ once ending_soon ++ once final_minutes ++ once ended)
        ≡ one s started + (one s ending_soon + (one s final_minutes + one s ended))
  four_plays s = omega (
    arith,
    plays-append id s table (once started ++ once ending_soon ++ once final_minutes) (once ended),
    plays-append id s table (once started ++ once ending_soon) (once final_minutes),
    plays-append id s table (once started) (once ending_soon),
    plays-once s started,
    plays-once s ending_soon,
    plays-once s final_minutes,
    plays-once s ended,
  )

  sum_of_one :
      (s : Sound)
      → one s started + (one s ending_soon + (one s final_minutes + one s ended))
        ≡ (if (table == id) && (is_due s c && not (flag_of s a)) then 1 else 0)
  unfolding one
  sum_of_one started = ground arith
  sum_of_one ending_soon = ground arith
  sum_of_one final_minutes = ground arith
  sum_of_one ended = ground arith

  frame_plays :
      (s : Sound)
      → plays id s table (alert_sounds c a)
        ≡ (if (table == id) && ((c.is_busy && is_due s c) && not (flag_of s a)) then 1 else 0)
  unfolding alert_sounds once count_played
  frame_plays s = elim (Bool-cases c.is_busy) [
    | inl busy ↦ simp busy (four_plays s ∙ sum_of_one s)
    | inr free ↦ simp free (ground arith)
  ]

frame_flag :
    (id : ℕ) (s : Sound) (f : TableState × ℕ) (previous : PreviousStates)
    → flag_of s (run_effect f.0 f.1 previous id) ≡ (flag_of s (previous id) || calls_for id s f)
unfolding run_effect calls_for alert_flags
frame_flag id started f previous = ground arith
frame_flag id ending_soon f previous = ground arith
frame_flag id final_minutes f previous = ground arith
frame_flag id ended f previous = ground arith

module _ (id : ℕ) (s : Sound) where
  own_flag :
      (t : ℕ) (x : Bool) (g : ℕ → Bool)
      → one_if ((t == id) && (x && not (g t))) ≡ one_if (((t == id) && x) && not (g id))
  own_flag t x g = elim (Bool-cases (t == id)) [
    | inl same ↦ rw ((==_iff t id).0 same) (ground arith)
    | inr other ↦ ground arith
  ]

  frame_count :
      (f : TableState × ℕ) (previous : PreviousStates)
      → plays id s f.0.table_id (alert_sounds (card_of f.0 f.1) (previous f.0.table_id))
        ≡ (if calls_for id s f && not (flag_of s (previous id)) then 1 else 0)
  unfolding calls_for
  frame_count f previous =
      frame_plays id f.0.table_id (card_of f.0 f.1) (previous f.0.table_id) s
      ∙ own_flag f.0.table_id ((card_of f.0 f.1).is_busy && is_due s (card_of f.0 f.1))
          (λ t. flag_of s (previous t))

  -- Over any run of frames, of any tables and any sessions, a table plays a sound once if some frame of
  -- it falls into the time of the sound and it has not played it before, and else never.
  pub run_frames_plays :
      (fs : List (TableState × ℕ)) (previous : PreviousStates)
      → count_played id s (run_frames fs previous)
        ≡ (if some_calls id s fs && not (flag_of s (previous id)) then 1 else 0)
  unfolding run_frames some_calls count_played
  run_frames_plays [] previous = refl
  run_frames_plays (f ∷ fs) previous = grind (
    arith,
    count_played-append id s
        (map (λ x. record { table_id = f.0.table_id; sound = x })
          (alert_sounds (card_of f.0 f.1) (previous f.0.table_id)))
        (run_frames fs (run_effect f.0 f.1 previous)),
    frame_count f previous,
    frame_flag id s f previous,
    run_frames_plays fs (run_effect f.0 f.1 previous),
  )

  some_calls-append :
      (fs gs : List (TableState × ℕ))
      → some_calls id s (fs ++ gs) ≡ (some_calls id s fs || some_calls id s gs)
  unfolding some_calls
  some_calls-append [] gs = refl
  some_calls-append (f ∷ fs) gs = ground (arith, some_calls-append fs gs)

  -- The flags are never reset: once a sound's time has come at a table, no later frame plays it there,
  -- also where it belongs to another session.
  pub later_session_stays_silent :
      (fs gs : List (TableState × ℕ)) (previous : PreviousStates)
      → some_calls id s fs ≡ true
      → count_played id s (run_frames (fs ++ gs) previous)
        ≡ count_played id s (run_frames fs previous)
  later_session_stays_silent fs gs previous h = grind (
    arith,
    run_frames_plays (fs ++ gs) previous,
    run_frames_plays fs previous,
    some_calls-append fs gs,
  )
