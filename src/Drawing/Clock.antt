-- ===== src/Drawing/Clock.antt =====
-- The clock of BookingTimeline.jsx: a timeout to the next full minute, then an interval. Its timers
-- are the times at which they are due.
use gbc_smart_management.Base.{
  ℕ, suc, ◌+◌, ◌-◌, ◌%◌, ◌≤◌, ◌<◌, ◌≡◌, ◌⊎◌, inl, inr, refl, arith, Option, none, some,
}

pub record Clock : Type 0 where
  pub now : ℕ
  pub current_time : ℕ
  pub timeout : Option ℕ
  pub interval : Option ℕ

-- `60000 - (Date.now() % 60000)`
unfoldable pub ms_until_next_minute : ℕ → ℕ
ms_until_next_minute now = 60000 - now % 60000

-- `syncClock`
unfoldable pub sync_clock : Clock → Clock
sync_clock s = record s { timeout = some (s.now + ms_until_next_minute s.now); interval = none }

-- The component is mounted.
unfoldable pub mount_clock : ℕ → Clock
mount_clock now =
    sync_clock (record { now = now; current_time = now; timeout = none; interval = none })

-- The callbacks of the two timers.
unfoldable pub timeout_rings : Clock → Clock
timeout_rings s = record s { current_time = s.now; timeout = none; interval = some (s.now + 60000) }

unfoldable pub interval_rings : Clock → Clock
interval_rings s = record s { current_time = s.now; interval = some (s.now + 60000) }

-- The clean-up of the effect.
unfoldable pub unmount_clock : Clock → Clock
unmount_clock s = record s { timeout = none; interval = none }

-- A timer, if it is set, is due at `t` or later.
abbrev pub NotBefore : ℕ → Option ℕ → Type 0
NotBefore t none = Unit
NotBefore t (some due) = t ≤ due

-- A step where the browser is not late: time passes up to the next timer, a timer that is due rings,
-- or the page becomes visible while none is due.
pub data ClockStep (s : Clock) : Clock → Type 0 where
  waits :
      (t : ℕ)
      → s.now ≤ t
      → NotBefore t s.timeout
      → NotBefore t s.interval
      → ClockStep s (record s { now = t })
  times_out : s.timeout ≡ some s.now → ClockStep s (timeout_rings s)
  repeats : s.interval ≡ some s.now → ClockStep s (interval_rings s)
  returns :
      NotBefore (suc s.now) s.timeout
      → NotBefore (suc s.now) s.interval
      → ClockStep s (sync_clock s)

pub data ClockRun (s : Clock) : Clock → Type 0 where
  idle : ClockRun s s
  then_tick : {t u : Clock} → ClockRun s t → ClockStep t u → ClockRun s u

-- Exactly one timer is set, due at a full minute, and the time that is shown is a minute before that at
-- most.
pub record IsFresh (s : Clock) : Type 0 where
  pub due : ℕ
  pub one_timer :
      ((s.timeout ≡ some due) × (s.interval ≡ none))
      ⊎ ((s.timeout ≡ none) × (s.interval ≡ some due))
  pub full_minute : due % 60000 ≡ 0
  pub ahead : s.now ≤ due
  pub shown : s.current_time ≤ s.now
  pub recent : due ≤ s.current_time + 60000

ClockStep-IsFresh : {s u : Clock} → IsFresh s → ClockStep s u → IsFresh u
unfolding sync_clock ms_until_next_minute timeout_rings interval_rings
ClockStep-IsFresh {s} f (waits t later h1 h2) = record {
  due = f.due;
  one_timer = f.one_timer;
  full_minute = f.full_minute;
  ahead = ground (arith, f.one_timer);
  shown = omega (arith, f.shown, later);
  recent = f.recent;
}
ClockStep-IsFresh {s} f (times_out h) = record {
  due = s.now + 60000;
  one_timer = inr (refl, refl);
  full_minute = ground (arith, f.one_timer);
  ahead = omega arith;
  shown = omega arith;
  recent = omega arith;
}
ClockStep-IsFresh {s} f (repeats h) = record {
  due = s.now + 60000;
  one_timer = ground (arith, f.one_timer);
  full_minute = ground (arith, f.one_timer);
  ahead = omega arith;
  shown = omega arith;
  recent = omega arith;
}
ClockStep-IsFresh {s} f (returns h1 h2) = record {
  due = s.now + (60000 - s.now % 60000);
  one_timer = inl (refl, refl);
  full_minute = omega arith;
  ahead = omega arith;
  shown = f.shown;
  recent =
      let later : s.now < f.due = ground (arith, f.one_timer) in
      omega (arith, later, f.recent, f.full_minute);
}

mount_clock-IsFresh : (now : ℕ) → IsFresh (mount_clock now)
unfolding mount_clock sync_clock ms_until_next_minute
mount_clock-IsFresh now = record {
  due = now + (60000 - now % 60000);
  one_timer = inl (refl, refl);
  full_minute = omega arith;
  ahead = omega arith;
  shown = omega arith;
  recent = omega arith;
}

-- From the mounting of the timeline on, as long as the browser is not late with its timers and shows the
-- page again only while none is due: exactly one timer is set, it is due at a full minute that is not
-- past, and the time that the timeline is drawn for is not to come, and at most a minute before
-- that full minute.
pub clock_runs-IsFresh : (start : ℕ) {s : Clock} → ClockRun (mount_clock start) s → IsFresh s
clock_runs-IsFresh start idle = mount_clock-IsFresh start
clock_runs-IsFresh start (then_tick r st) = ClockStep-IsFresh (clock_runs-IsFresh start r) st
