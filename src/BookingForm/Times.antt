-- ===== src/BookingForm/Times.antt =====
-- The texts of the two time inputs: `formatTimeForInput` and `parseTimeFromInput`.
use gbc_smart_management.Base.{
  ℕ, ◌+◌, ◌*◌, ◌%◌, ◌≤◌, ◌<◌, ◌≡◌, ◌∙◌, ap, arith, [], ◌∷◌, some, Text, false, is_empty, two_digits,
  two_digits_lem, number-two_digits, number, split,
}
use native.Mathlib.Decide.{dec_lt}
use gbc_smart_management.Calendar.{get_hours, get_minutes, whole_minute, day_ms}
use gbc_smart_management.Timeline.{start_of_day}
use gbc_smart_management.Timeline.BusinessDay.{start_of_day_bounds}
use gbc_smart_management.BookingForm.{
  time_text, format_time, time_on_day, time_of_parts, parse_time,
}
use gbc_smart_management.Submission.{next_day_if_earlier}

pub split-time_text :
    (h m : ℕ) → h < 100 → m < 100 → split b':' (time_text h m) ≡ two_digits h ∷ two_digits m ∷ []
unfolding split
split-time_text h m hh hm = rw (two_digits_lem h hh, two_digits_lem m hm) (ground arith)

parse_time_of_parts :
    (zone open_hour base h m : ℕ) (t hh mm : Text)
    → is_empty t ≡ false
    → split b':' t ≡ hh ∷ mm ∷ []
    → number hh ≡ some h
    → number mm ≡ some m
    → parse_time zone open_hour t base ≡ some (time_on_day zone open_hour base h m)
unfolding parse_time
parse_time_of_parts zone open_hour base h m [] hh mm e1 e2 e3 e4 = cc
parse_time_of_parts zone open_hour base h m (c ∷ cs) hh mm e1 e2 e3 e4 =
    rw (e2, time_of_parts) (rw (e3, e4))

pub time_text_not_empty : (h m : ℕ) → h < 100 → is_empty (time_text h m) ≡ false
time_text_not_empty h m hh = rw (two_digits_lem h hh)

-- A text that a time input holds is read as the time of the business day that it shows.
pub parse_time-time_text :
    (zone open_hour base h m : ℕ)
    → h < 24
    → m < 60
    → parse_time zone open_hour (time_text h m) base ≡ some (time_on_day zone open_hour base h m)
parse_time-time_text zone open_hour base h m hh hm =
    parse_time_of_parts zone open_hour base h m (time_text h m) (two_digits h) (two_digits m)
      (time_text_not_empty h m (omega arith)) (split-time_text h m (omega arith) (omega arith))
      (number-two_digits h (omega arith)) (number-two_digits m (omega arith))

module _ (zone open_hour base : ℕ) (late : 172800000 ≤ base) (hour : open_hour < 24) where
  pub time_on_day_bounds :
      (h m : ℕ)
      → h < 24
      → m < 60
      → (start_of_day zone base open_hour ≤ time_on_day zone open_hour base h m)
        × (time_on_day zone open_hour base h m < start_of_day zone base open_hour + day_ms)
  unfolding time_on_day
  time_on_day_bounds h m hh hm = ground (arith, start_of_day_bounds zone base open_hour late hour)

  time_on_day_clock :
      (t : ℕ)
      → start_of_day zone base open_hour ≤ t
      → t < start_of_day zone base open_hour + day_ms
      → time_on_day zone open_hour base (get_hours zone t) (get_minutes zone t)
        ≡ whole_minute zone t
  unfolding time_on_day
  time_on_day_clock t h1 h2 = ground (arith, start_of_day_bounds zone base open_hour late hour)

  time_on_day_clock_next :
      (t : ℕ)
      → start_of_day zone base open_hour + day_ms ≤ t
      → t < start_of_day zone base open_hour + 2 * day_ms
      → time_on_day zone open_hour base (get_hours zone t) (get_minutes zone t) + day_ms
        ≡ whole_minute zone t
  unfolding time_on_day
  time_on_day_clock_next t h1 h2 = ground (arith, start_of_day_bounds zone base open_hour late hour)

  get_time_on_day :
      (h m : ℕ)
      → h < 24
      → m < 60
      → (get_hours zone (time_on_day zone open_hour base h m) ≡ h)
        × (get_minutes zone (time_on_day zone open_hour base h m) ≡ m)
  unfolding time_on_day
  get_time_on_day h m hh hm = ground (arith, start_of_day_bounds zone base open_hour late hour)

  -- Reading the text that is printed for a time of the business day gives that time back, cut down to
  -- the whole minute on the local clock.
  pub parse_time-format_time :
      (t : ℕ)
      → start_of_day zone base open_hour ≤ t
      → t < start_of_day zone base open_hour + day_ms
      → parse_time zone open_hour (format_time zone t) base ≡ some (whole_minute zone t)
  unfolding format_time
  parse_time-format_time t h1 h2 =
      parse_time-time_text zone open_hour base (get_hours zone t) (get_minutes zone t) (omega arith)
        (omega arith)
      ∙ ap some (time_on_day_clock t h1 h2)

  -- Printing the time that is read from the text of a time input gives that text back.
  pub format_time-time_on_day :
      (h m : ℕ)
      → h < 24
      → m < 60
      → format_time zone (time_on_day zone open_hour base h m) ≡ time_text h m
  unfolding format_time
  format_time-time_on_day h m hh hm = let (eh, em) = get_time_on_day h m hh hm in rw (eh, em)

  -- Printing a whole minute and reading it again keeps it, or takes a day off where it lies on the
  -- next business day.
  pub reread :
      (start mins : ℕ)
      → start_of_day zone base open_hour ≤ start
      → start < start_of_day zone base open_hour + day_ms
      → (start + zone) % 60000 ≡ 0
      → 0 < mins
      → mins < 1440
      → (out : ℕ) × (parse_time zone open_hour (format_time zone (start + mins * 60000)) base
          ≡ some out)
        × (next_day_if_earlier start out ≡ start + mins * 60000)
  unfolding format_time
  reread start mins h1 h2 h3 h4 h5 =
      let t : ℕ = start + mins * 60000 in
      (
        time_on_day zone open_hour base (get_hours zone t) (get_minutes zone t),
        parse_time-time_text zone open_hour base (get_hours zone t) (get_minutes zone t)
            (omega arith) (omega arith),
        elim (dec_lt t (start_of_day zone base open_hour + day_ms)) [
          | yes early ↦ ground (arith, time_on_day_clock t)
          | no over ↦ ground (arith, time_on_day_clock_next t)
        ],
      )

  pub time_on_day_whole : (h m : ℕ) → (time_on_day zone open_hour base h m + zone) % 60000 ≡ 0
  unfolding time_on_day
  time_on_day_whole h m = ground (arith, start_of_day_bounds zone base open_hour late hour)
