-- ===== src/Users/Dates.antt =====
-- The dates of the list of users: `formatUnixMs` and `formatUnixMsRelative`.
use gbc_smart_management.Base.{
  ℕ, suc, ◌+◌, ◌-◌, ◌*◌, ◌/◌, ◌≤◌, ◌<◌, pos, negsuc, sub_ℕ, floor_div, ltb, ◌==◌, if◌then◌else◌,
  Option, none, some, ◌≡◌, arith, leb, leb→le, Bool-cases, inl, inr,
}

-- A date of the locale stands for the moment it shows; `no_date` is a dash.
pub data DateText : Type 0 where
  no_date : DateText
  just_now : DateText
  minutes_ago : ℕ → DateText
  hours_ago : ℕ → DateText
  days_ago : ℕ → DateText
  on_date : ℕ → DateText

abbrev pub ms_or_zero : Option ℕ → ℕ
ms_or_zero none = 0
ms_or_zero (some ms) = ms

unfoldable pub format_unix_ms : Option ℕ → DateText
format_unix_ms ms = if ms_or_zero ms == 0 then no_date else on_date (ms_or_zero ms)

-- The texts by the minutes that have passed.
unfoldable pub ago : ℕ → ℕ → DateText
ago ms mins =
    let hours = mins / 60 in
    let days = hours / 24 in
    if ltb mins 1
    then just_now
    else if ltb mins 60
    then minutes_ago mins
    else if ltb hours 24
    then hours_ago hours
    else if ltb days 7
    then days_ago days
    else on_date ms

-- `formatUnixMsRelative` at the time `now`. A moment that is still to come has negative minutes.
unfoldable pub format_unix_ms_relative : ℕ → Option ℕ → DateText
format_unix_ms_relative now t =
    let ms = ms_or_zero t in
    if ms == 0
    then no_date
    else elim (floor_div (sub_ℕ now ms) 60000) [ negsuc m ↦ just_now | pos m ↦ ago ms m ]

-- `ms` lies `count` whole units of the given length before `now`.
abbrev pub IsAgo : ℕ → ℕ → ℕ → ℕ → Type 0
IsAgo now ms unit count = (ms + count * unit ≤ now) × (now < ms + suc count * unit)

-- What a text says of the time since `ms`.
abbrev pub IsSaid : ℕ → ℕ → DateText → Type 0
IsSaid now ms no_date = ms ≡ 0
IsSaid now ms just_now = now < ms + 60000
IsSaid now ms (minutes_ago m) = IsAgo now ms 60000 m × (1 ≤ m) × (m < 60)
IsSaid now ms (hours_ago h) = IsAgo now ms 3600000 h × (1 ≤ h) × (h < 24)
IsSaid now ms (days_ago d) = IsAgo now ms 86400000 d × (1 ≤ d) × (d < 7)
IsSaid now ms (on_date t) = (t ≡ ms) × (ms + 604800000 ≤ now)

ago-IsSaid : (now ms : ℕ) → ms ≤ now → IsSaid now ms (ago ms ((now - ms) / 60000))
unfolding ago
ago-IsSaid now ms h = ground arith

-- At any time and for any moment of the last sign-in, a missing one being 0, what the list says is
-- true: the minutes, hours and days are the whole ones that have passed, from 1 up to the next unit;
-- "Just now" means less than a minute or a moment to come; and a date is shown from seven days on.
pub format_unix_ms_relative-IsSaid :
    (now : ℕ) (t : Option ℕ) → IsSaid now (ms_or_zero t) (format_unix_ms_relative now t)
unfolding format_unix_ms_relative floor_div
format_unix_ms_relative-IsSaid now t = elim (Bool-cases (ms_or_zero t == 0)) [
  | inl missing ↦ rw missing (ground arith)
  | inr here ↦ elim (Bool-cases (leb (ms_or_zero t) now)) [
    | inl past ↦ rw (here, past) (ago-IsSaid now (ms_or_zero t) (leb→le (ms_or_zero t) now past))
    | inr coming ↦ rw (here, coming) (ground arith)
  ]
]
