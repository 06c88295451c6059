-- ===== src/Drawing/Durations.antt =====
-- The durations that FreeSlotButton.jsx (`formatDuration`) and BookingBlock.jsx (`durationHrs`) show.
use gbc_smart_management.Base.{
  ℕ, ◌+◌, ◌*◌, ◌/◌, ◌%◌, ◌≤◌, ◌<◌, ◌==◌, ltb, Bool, ◌&&◌, Text, codes, decimal, ◌++◌, ◌∷◌, arith,
  if◌then◌else◌,
}

-- `(ms / 3600000).toFixed(1)`, in tenths of an hour; `tie_up` tells which way a duration between two
-- tenths goes, which depends on its binary approximation.
unfoldable pub tenths_of_hour : (ℕ → Bool) → ℕ → ℕ
tenths_of_hour tie_up ms =
    let k = ms * 10 / 3600000 in
    let rest = ms * 10 % 3600000 in
    if ltb rest 1800000
    then k
    else if ltb 1800000 rest
    then k + 1
    else if tie_up ms
    then k + 1
    else k

-- `.replace('.0', '')` of it.
unfoldable pub tenths_text : ℕ → Text
tenths_text k =
    if k % 10 == 0 then decimal (k / 10) else decimal (k / 10) ++ b'.' ∷ decimal (k % 10)

pub data Duration : Type 0 where
  tenths : ℕ → Duration
  hours : ℕ → Duration
  minutes : ℕ → Duration

-- `formatDuration`, before its units are put into words.
unfoldable pub format_duration : (ℕ → Bool) → ℕ → Duration
format_duration tie_up ms =
    let h = ms / 3600000 in
    let m = ms % 3600000 / 60000 in
    if ltb 0 h && ltb 0 m
    then tenths (tenths_of_hour tie_up ms)
    else if ltb 0 h
    then hours h
    else minutes m

unfoldable pub text_of : Duration → Text
text_of (tenths k) = tenths_text k ++ codes "h"
text_of (hours h) = decimal h ++ codes "h"
text_of (minutes m) = decimal m ++ codes "m"

unfoldable pub duration_text : (ℕ → Bool) → ℕ → Text
duration_text tie_up ms = text_of (format_duration tie_up ms)

-- What a duration that is shown says of its milliseconds.
abbrev pub IsNear : ℕ → Duration → Type 0
IsNear ms (tenths k) = (k * 360000 ≤ ms + 180000) × (ms ≤ k * 360000 + 180000) × (3660000 ≤ ms)
IsNear ms (hours h) = (h * 3600000 ≤ ms) × (ms < h * 3600000 + 60000)
IsNear ms (minutes m) = (m * 60000 ≤ ms) × (ms < m * 60000 + 60000) × (m < 60)

-- Whichever way a tie is rounded: a duration that is shown in tenths of an hour is 61 minutes at least and
-- at most three minutes off; one shown in hours or in minutes is less than a minute longer than it says.
pub format_duration-IsNear : (tie_up : ℕ → Bool) (ms : ℕ) → IsNear ms (format_duration tie_up ms)
unfolding format_duration tenths_of_hour
format_duration-IsNear tie_up ms = ground arith
