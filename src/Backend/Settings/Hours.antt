-- ===== src/Backend/Settings/Hours.antt =====
-- The hours of the club, as the form sends them, on the pages and on the server.
use gbc_smart_management.Base.{
  min, List, [], ℕ, ◌+◌, ◌-◌, ◌*◌, ◌/◌, ◌%◌, ◌≤◌, ◌<◌, ltb, ◌==◌, true, ◌||◌, ◌≡◌, refl, sym, ◌∙◌,
  ap, arith, Option, none, some, String, Text, every, if◌then◌else◌, split, two_digits,
  number-two_digits, parse_int-two_digits, Option-cases, inl, inr,
}
use gbc_smart_management.Config.{
  GlobalConfig, hour_of, open_hour_of, close_hour_of, base_close_hour,
}
use gbc_smart_management.BookingForm.{time_text}
use gbc_smart_management.BookingForm.Times.{split-time_text, time_text_not_empty}
use gbc_smart_management.SettingsForm.{SettingsFields, config_sent}
use gbc_smart_management.Timeline.{Booking, start_of_day, dynamic_close_hour, max_end_hour}
use gbc_smart_management.Timeline.CloseHour.{dynamic_close_hour_least}
use gbc_smart_management.Timeline.BusinessDay.{start_of_day_iff}
use gbc_smart_management.Backend.Days.{day_start, day_end, start_ms, close_ms, clock_ms, atoi}
use gbc_smart_management.Backend.Bookings.{ok}
use gbc_smart_management.Backend.Settings.{
  Settings, ConfigDoc, decode, read_field, Driver, set_fields, stored_after, is_allowed, decoded,
  handle_update_config, handle_get_config, settings_body, FieldValue, number_value, text_value,
  config_of, venue_config_of,
}

-- The settings of a body, as they are stored.
settings_of : ℕ → GlobalConfig → Settings
settings_of now c = record {
  hourly_rate = c.hourly_rate;
  venue_close_time = c.venue_close_time;
  venue_start_time = c.venue_start_time;
  updated_at = now;
}

-- The driver reads what it has written.
module _ (driver : Driver) (rates : (r : ℕ) → driver.rate_from (number_value r) ≡ some r)
    (texts : (x : Text) → driver.text_from (text_value x) ≡ some x) (now : ℕ) (c : GlobalConfig)
    (doc : Option ConfigDoc) where
  decode-settings :
      (base : String → Option FieldValue)
      → decode driver (record { fields = set_fields (settings_body c) base; updated_at = now })
        ≡ some (settings_of now c)
  unfolding settings_body set_fields read_field settings_of decode
  decode-settings base =
      rw (decode, rates c.hourly_rate, texts c.venue_close_time, texts c.venue_start_time) refl

  decode-stored_after :
      decode driver (stored_after now (settings_body c) doc) ≡ some (settings_of now c)
  unfolding stored_after
  decode-stored_after = elim (Option-cases doc) [
    | inl gone ↦ rw gone (decode-settings (λ key. none))
    | inr (d, there) ↦ rw there (decode-settings d.fields)
  ]

  handle_update_config-settings :
      handle_update_config driver true now (some (settings_body c)) doc
      ≡ (ok (settings_of now c), some (stored_after now (settings_body c) doc))
  unfolding handle_update_config is_allowed settings_body decoded every
  handle_update_config-settings = rw decode-stored_after refl

  handle_get_config-settings :
      handle_get_config driver true (some (stored_after now (settings_body c) doc))
      ≡ ok (some (settings_of now c))
  unfolding handle_get_config decode
  handle_get_config-settings = rw (handle_get_config, decode-stored_after) refl

hour_of-time_text :
    (h m fallback : ℕ) → h < 100 → m < 100 → hour_of (time_text h m) fallback ≡ some h
unfolding hour_of
hour_of-time_text h m fallback hh hm =
    rw (time_text_not_empty h m hh, split-time_text h m hh hm) (parse_int-two_digits h hh)

atoi-two_digits : (n : ℕ) → n < 100 → atoi (two_digits n) ≡ n
unfolding atoi
atoi-two_digits n h = rw (atoi, number-two_digits n h) refl

clock_ms-time_text :
    (fallback h m : ℕ)
    → h < 100
    → m < 100
    → clock_ms fallback (split b':' (time_text h m)) ≡ h * 3600000 + m * 60000
unfolding clock_ms
clock_ms-time_text fallback h m hh hm =
    rw (split-time_text h m hh hm, clock_ms, atoi-two_digits h hh, atoi-two_digits m hm) refl

-- The hours of settings that the server has, with those of the pages.
module _ (s : Settings) (h m k n : ℕ) (open_h : h < 24) (open_m : m < 60) (close_h : k < 24)
    (close_m : n < 60) (opens : s.venue_start_time ≡ time_text h m)
    (closes : s.venue_close_time ≡ time_text k n) where
  page_opens : open_hour_of (some (config_of s)) ≡ some h
  unfolding open_hour_of config_of
  page_opens = rw (opens, hour_of-time_text h m 10 (omega arith) (omega arith)) refl

  page_closes : close_hour_of (some (config_of s)) h ≡ some (base_close_hour h k)
  unfolding close_hour_of config_of
  page_closes =
      rw (closes, close_hour_of, hour_of-time_text k n 24 (omega arith) (omega arith)) refl

  server_opens : start_ms (venue_config_of s) ≡ h * 3600000 + m * 60000
  unfolding start_ms venue_config_of
  server_opens = rw (opens, clock_ms-time_text (9 * 3600000) h m (omega arith) (omega arith)) refl

  server_closes : close_ms (venue_config_of s) ≡ k * 3600000 + n * 60000
  unfolding close_ms venue_config_of
  server_closes = rw (closes, clock_ms-time_text (6 * 3600000) k n (omega arith) (omega arith)) refl

  module _ (zone t : ℕ) (late : 172800000 ≤ t) (ahead : zone ≤ 86400000)
      (is_open : h * 3600000 ≤ (t + zone) % 86400000) where
    page_start : start_of_day zone t h ≡ (t + zone) / 86400000 * 86400000 + h * 3600000 - zone
    page_start = sym (
        (start_of_day_iff zone t h late open_h
            ((t + zone) / 86400000 * 86400000 + h * 3600000 - zone)).1
          (omega arith, omega arith, omega arith))

    server_start :
        day_start zone ((t + zone) / 86400000) (venue_config_of s)
        ≡ start_of_day zone t h + m * 60000
    unfolding day_start
    server_start = rw server_opens (omega (arith, page_start))

    server_end : day_end zone ((t + zone) / 86400000) (venue_config_of s) ≡ (
        start_of_day zone t h
        + (base_close_hour h k - h) * 3600000
        + n * 60000
        + (if k == 0 || ltb k h then 0 else 86400000))
    unfolding day_end base_close_hour
    server_end = rw server_closes (ground (arith, page_start))

-- The hour to which the timeline is drawn.
drawn_empty : (zone h t base : ℕ) → dynamic_close_hour zone [] h base t ≡ min base (h + 20)
unfolding dynamic_close_hour max_end_hour
drawn_empty zone h t base = refl

drawn_bounds :
    (zone h t base : ℕ) (bs : List Booking)
    → (min base (h + 20) ≤ dynamic_close_hour zone bs h base t)
      × (dynamic_close_hour zone bs h base t ≤ h + 20)
drawn_bounds zone h t base bs =
    let (capped, free, least) = dynamic_close_hour_least zone h t bs base in
    (ground (arith, capped, free), capped)

-- The form holds an opening time h:m and a closing time k:n, and is sent: the server, whose driver
-- reads the numbers and the texts as they were written, answers with the settings that were sent, and
-- gives them to the pages from then on. On the date of a moment from the opening hour on, two days after
-- the epoch or later and on a clock at most a day ahead: the pages open at the hour h, and the server m
-- minutes later. The closing hour that the pages read is k, of the next date where it is midnight or
-- before the opening hour; the timeline without bookings is drawn to that hour, but 20 hours at most, and
-- with any bookings no shorter, and 20 hours at most. The server closes n minutes after the hour
-- k, on the next date in any case.
pub saved_hours_on_both_sides :
    (driver : Driver) (zone now t h m k n : ℕ) (f : SettingsFields) (doc : Option ConfigDoc)
    → ((r : ℕ) → driver.rate_from (number_value r) ≡ some r)
    → ((x : Text) → driver.text_from (text_value x) ≡ some x)
    → h < 24
    → m < 60
    → k < 24
    → n < 60
    → f.opening ≡ time_text h m
    → f.closing ≡ time_text k n
    → 172800000 ≤ t
    → zone ≤ 86400000
    → h * 3600000 ≤ (t + zone) % 86400000
    → let saved = handle_update_config driver true now (some (settings_body (config_sent f))) doc in
      let date = (t + zone) / 86400000 in
      let start = start_of_day zone t h in
      (s : Settings) × (saved.0 ≡ ok s)
      × (handle_get_config driver true saved.1 ≡ ok (some s))
      × (config_of s ≡ config_sent f)
      × (open_hour_of (some (config_of s)) ≡ some h)
      × (close_hour_of (some (config_of s)) h ≡ some (base_close_hour h k))
      × (dynamic_close_hour zone [] h (base_close_hour h k) t ≡ min (base_close_hour h k) (h + 20))
      × ((bs : List Booking)
          → (min (base_close_hour h k) (h + 20)
              ≤ dynamic_close_hour zone bs h (base_close_hour h k) t)
            × (dynamic_close_hour zone bs h (base_close_hour h k) t ≤ h + 20))
      × (day_start zone date (venue_config_of s) ≡ start + m * 60000)
      × (day_end zone date (venue_config_of s) ≡ (
          start
          + (base_close_hour h k - h) * 3600000
          + n * 60000
          + (if k == 0 || ltb k h then 0 else 86400000)))
unfolding settings_of config_of config_sent
saved_hours_on_both_sides driver zone now t h m k n f doc rates texts open_h open_m close_h close_m
      opens closes late ahead is_open =
    let c = config_sent f in
    let s = settings_of now c in
    let done = handle_update_config-settings driver rates texts now c doc in
    (
      s,
      ap (λ x. x.0) done,
      ap (λ x. handle_get_config driver true x.1) done
          ∙ handle_get_config-settings driver rates texts now c doc,
      refl,
      page_opens s h m k n open_h open_m close_h close_m opens closes,
      page_closes s h m k n open_h open_m close_h close_m opens closes,
      drawn_empty zone h t (base_close_hour h k),
      drawn_bounds zone h t (base_close_hour h k),
      server_start s h m k n open_h open_m close_h close_m opens closes zone t late ahead is_open,
      server_end s h m k n open_h open_m close_h close_m opens closes zone t late ahead is_open,
    )
