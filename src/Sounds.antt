-- ===== src/Sounds.antt =====
-- frontend/src/utils/SoundSystem.js: the tones of the display's sounds. The audio API is a parameter:
-- whether the browser has it stands in the arguments, and a tone is what the code asks it to play.
use gbc_smart_management.Base.{ℕ, Bool, true, false, List, [], ◌∷◌, Option, none, some}
use gbc_smart_management.Tv.{Sound, started, ending_soon, final_minutes, ended}

pub data ContextState : Type 0 where
  suspended running : ContextState

pub data Wave : Type 0 where
  sine triangle : Wave

-- A tone: milliseconds after the call, the frequency in hundredths of a hertz, the wave, milliseconds of
-- length, and the volume in hundredths.
pub record Tone : Type 0 where
  pub delay : ℕ
  pub frequency : ℕ
  pub wave : Wave
  pub length_ms : ℕ
  pub volume : ℕ

-- `init`: `available` tells whether the browser has an AudioContext, and `made` in which state one is made.
unfoldable pub init_audio : Bool → ContextState → Option ContextState → Option ContextState
init_audio available made (some c) = some running
init_audio false made none = none
init_audio true suspended none = some running
init_audio true running none = some running

-- `playTone`: nothing without a context.
unfoldable pub play_tones : Option ContextState → List Tone → List Tone
play_tones none ts = []
play_tones (some c) ts = ts

abbrev tone : ℕ → ℕ → Wave → ℕ → ℕ → Tone
tone delay frequency wave length_ms volume = record {
  delay = delay;
  frequency = frequency;
  wave = wave;
  length_ms = length_ms;
  volume = volume;
}

-- `playStarted`, `playEndingSoon`, `playFinalMinutes` and `playEnded`.
unfoldable pub tones_of : Sound → List Tone
tones_of started = tone 0 52325 sine 200 5 ∷ tone 150 65925 sine 400 5 ∷ []
tones_of ending_soon = tone 0 60000 sine 400 5 ∷ []
tones_of final_minutes = tone 0 88000 sine 200 5 ∷ tone 250 88000 sine 400 5 ∷ []
tones_of ended = tone 0 44000 triangle 800 10 ∷ tone 400 34923 triangle 1200 10 ∷ []

unfoldable pub play_sound : Option ContextState → Sound → List Tone
play_sound ctx s = play_tones ctx (tones_of s)
