-- ===== src/Countdown/Clock.antt =====
-- The countdown.
use gbc_smart_management.Base.{
  zero, suc, ◌∙◌, if◌then◌else◌, pad_start, decimal, ℕ, ◌+◌, ◌*◌, ◌/◌, ◌%◌, ◌≤◌, ◌<◌, ◌≡◌, refl,
  arith, pos, ◌+ℤ◌, ◌-ℤ◌, pos_part, two_digits, ◌++◌, ◌∷◌, ◌==◌, ==_false, codes,
}
use gbc_smart_management.Countdown.{format_time_remaining, clock_text, get_progress, clamp_ratio}

clock_text_lem :
    (h m s : ℕ)
    → m < 60
    → s < 60
    → clock_text ((h * 60 + m) * 60 + s)
      ≡ two_digits h ++ b':' ∷ two_digits m ++ b':' ∷ two_digits s
unfolding clock_text
clock_text_lem h m s hm hs = rw (hours, minutes, seconds)
  where
    hours : ((h * 60 + m) * 60 + s) / 3600 ≡ h
    hours = omega arith

    minutes : ((h * 60 + m) * 60 + s) % 3600 / 60 ≡ m
    minutes = omega arith

    seconds : ((h * 60 + m) * 60 + s) % 60 ≡ s
    seconds = omega arith

remaining_lem :
    (start duration now n : ℕ)
    → start + duration ≡ now + n
    → pos_part ((pos start +ℤ pos duration) -ℤ pos now) ≡ n
unfolding ◌+ℤ◌ ◌-ℤ◌
remaining_lem start duration now n e = ground arith

zero_text : codes "00:00:00" ≡ clock_text 0
unfolding clock_text two_digits pad_start decimal
zero_text = refl

-- What is left, in milliseconds, is shown as its seconds; less than a second is shown as none.
remaining_text :
    (n : ℕ) → (if n == 0 then codes "00:00:00" else clock_text (n / 1000)) ≡ clock_text (n / 1000)
remaining_text zero = zero_text
remaining_text (suc n) = rw (==_false (suc n) 0 (ground arith))

-- A session that ends in `h` hours, `m` minutes, `s` seconds and less than a second shows these three
-- numbers, of two digits at least.
pub format_time_remaining_lem :
    (start duration now h m s r : ℕ)
    → m < 60
    → s < 60
    → r < 1000
    → start + duration ≡ now + ((h * 60 + m) * 60 + s) * 1000 + r
    → format_time_remaining start (pos duration) now
      ≡ two_digits h ++ b':' ∷ two_digits m ++ b':' ∷ two_digits s
unfolding format_time_remaining
format_time_remaining_lem start duration now h m s r hm hs hr e =
    rw (format_time_remaining, remaining_lem start duration now _ whole)
      (remaining_text _ ∙ rw seconds (clock_text_lem h m s hm hs))
  where
    whole : start + duration ≡ now + (((h * 60 + m) * 60 + s) * 1000 + r)
    whole = omega arith

    seconds : (((h * 60 + m) * 60 + s) * 1000 + r) / 1000 ≡ (h * 60 + m) * 60 + s
    seconds = omega arith

-- The progress of a session that lasts is a part of the whole: none before its start, all of it from
-- its end on, and in between it grows with the time.
pub get_progress_lem :
    (start d now later : ℕ)
    → now ≤ later
    → let p = get_progress start (pos (suc d)) now in
      let q = get_progress start (pos (suc d)) later in
      (p.whole ≡ suc d)
      × (p.part ≤ q.part)
      × (q.part ≤ suc d)
      × (later ≤ start → q.part ≡ 0)
      × (start + suc d ≤ now → p.part ≡ suc d)
unfolding get_progress clamp_ratio
get_progress_lem start d now later h = ground arith
