-- ===== src/Hardware/Uptime.antt =====
-- The uptime text of the hardware page: `formatUptime`.
use gbc_smart_management.Base.{
  ℕ, ◌+◌, ◌*◌, ◌/◌, ◌%◌, ◌≤◌, ◌<◌, ◌==◌, if◌then◌else◌, Option, none, some, ◌≡◌, ◌≢◌, ◌↔◌, arith,
  ==_false, ap, subst,
}

pub record UptimeText : Type 0 where
  pub days : ℕ
  pub hours : ℕ
  pub minutes : ℕ
  pub seconds : ℕ

abbrev pub uptime_of : ℕ → UptimeText
uptime_of ms = record {
  days = ms / (1000 * 60 * 60 * 24);
  hours = (ms / (1000 * 60 * 60)) % 24;
  minutes = (ms / (1000 * 60)) % 60;
  seconds = (ms / 1000) % 60;
}

-- `none` is "N/A".
unfoldable pub format_uptime : Option ℕ → Option UptimeText
format_uptime none = none
format_uptime (some ms) = if ms == 0 then none else some (uptime_of ms)

-- The whole seconds of `ms`, in days, hours, minutes and seconds.
abbrev pub IsUptime : ℕ → UptimeText → Type 0
IsUptime ms u =
    (u.days * 86400000 + u.hours * 3600000 + u.minutes * 60000 + u.seconds * 1000 ≤ ms)
    × (ms < u.days * 86400000 + u.hours * 3600000 + u.minutes * 60000 + u.seconds * 1000 + 1000)
    × (u.hours < 24)
    × (u.minutes < 60)
    × (u.seconds < 60)

uptime_of-IsUptime : (ms : ℕ) → IsUptime ms (uptime_of ms)
uptime_of-IsUptime ms = ground arith

same_uptime : (ms : ℕ) (u v : UptimeText) → IsUptime ms u → IsUptime ms v → u ≡ v
same_uptime ms u v h k = ground arith

-- The uptime of a number of milliseconds other than 0 is shown as days, hours, minutes and seconds, and
-- these are the only ones, with less than 24 hours and less than 60 minutes and seconds, that make up the
-- whole seconds of it.
pub format_uptime_iff :
    (ms : ℕ) (u : UptimeText) → ms ≢ 0 → (format_uptime (some ms) ≡ some u) ↔ IsUptime ms u
unfolding format_uptime
format_uptime_iff ms u h = rw (==_false ms 0 h) (
  (λ e. subst (λ o. elim o [ none ↦ Unit | some v ↦ IsUptime ms v ]) e (uptime_of-IsUptime ms)),
  λ k. ap some (same_uptime ms (uptime_of ms) u (uptime_of-IsUptime ms) k),
)
