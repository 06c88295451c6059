-- ===== src/BookingForm/Agreement.antt =====
-- When the two times and the duration of the form say the same, and which edits keep it so.
use gbc_smart_management.Base.{
  ℕ, zero, suc, ◌+◌, ◌-◌, ◌*◌, ◌/◌, ◌%◌, ◌≤◌, ◌<◌, ◌≡◌, ◌≢◌, refl, sym, ◌∙◌, ap, arith, [], ◌∷◌,
  some, false, Text, is_empty, pos,
}
use gbc_smart_management.Calendar.{day_ms}
use gbc_smart_management.Timeline.{start_of_day}
use gbc_smart_management.Timeline.BusinessDay.{start_of_day_bounds}
use gbc_smart_management.BookingForm.{
  Props, Form, handle_check_in_change, handle_check_out_change, handle_duration_change,
  DurationInput, dur_mins_of, base_ms, parse_in, parse_time, time_text, time_on_day, format_time,
  mins_between, price,
}
use gbc_smart_management.Submission.{next_day_if_earlier}
use gbc_smart_management.BookingForm.Times.{
  parse_time-time_text, time_on_day_bounds, time_on_day_whole, reread,
}

-- Times two days after the epoch or later, and an opening hour of the clock.
pub record IsRegular (p : Props) : Type 0 where
  pub late : 172800000 ≤ base_ms p.target
  pub hour : p.open_hour < 24

abbrev pub opening : Props → ℕ
opening p = start_of_day p.zone (base_ms p.target) p.open_hour

-- A whole minute of the business day.
pub record IsOnDay (p : Props) (t : ℕ) : Type 0 where
  pub after_opening : opening p ≤ t
  pub within_day : t < opening p + day_ms
  pub whole : (t + p.zone) % 60000 ≡ 0

-- The times are read as `start` and `out`, the duration is that of one from the other, and is
-- positive and below a day.
pub record Agrees (p : Props) (f : Form) : Type 0 where
  pub start : ℕ
  pub out : ℕ
  pub length_mins : ℕ
  pub on_day : IsOnDay p start
  pub read_in : parse_in p f.check_in ≡ some start
  pub read_out : parse_in p f.check_out ≡ some out
  pub positive : 0 < length_mins
  pub below_day : length_mins < 1440
  pub duration : f.duration_mins ≡ pos length_mins
  pub spans : next_day_if_earlier start out ≡ start + length_mins * 60000

-- A time that the browser's time input gives.
pub record IsTimeText (val : Text) : Type 0 where
  pub h : ℕ
  pub m : ℕ
  pub h_below : h < 24
  pub m_below : m < 60
  pub shows : val ≡ time_text h m

mins_between_lem :
    (p : Props) (start t : ℕ)
    → IsOnDay p start
    → IsOnDay p t
    → t ≢ start
    → (mins_between start t ≡ pos ((next_day_if_earlier start t - start) / 60000))
      × (0 < (next_day_if_earlier start t - start) / 60000)
      × ((next_day_if_earlier start t - start) / 60000 < 1440)
      × (next_day_if_earlier start t
          ≡ start + (next_day_if_earlier start t - start) / 60000 * 60000)
mins_between_lem p start t ds dt differ = (ground arith, ground arith, ground arith, ground arith)

not_empty_of_read :
    (zone open_hour base s : ℕ) (t : Text)
    → parse_time zone open_hour t base ≡ some s
    → 0 < s
    → is_empty t ≡ false
unfolding parse_time
not_empty_of_read zone open_hour base s [] e h = ground arith
not_empty_of_read zone open_hour base s (c ∷ cs) e h = refl

-- What the check-in and the duration determine.
module _ (p : Props) (r : IsRegular p) where
  read_time_text : (val : Text) → IsTimeText val → (t : ℕ) × (parse_in p val ≡ some t) × IsOnDay p t
  read_time_text val v =
      let (lo, hi) =
        time_on_day_bounds p.zone p.open_hour (base_ms p.target) r.late r.hour v.h v.m v.h_below
          v.m_below in
      (
        time_on_day p.zone p.open_hour (base_ms p.target) v.h v.m,
        rw v.shows (
            parse_time-time_text p.zone p.open_hour (base_ms p.target) v.h v.m v.h_below v.m_below),
        record {
          after_opening = lo;
          within_day = hi;
          whole = time_on_day_whole p.zone p.open_hour (base_ms p.target) r.late r.hour v.h v.m;
        },
      )

  pub agrees_of_start :
      (f : Form) (start n : ℕ)
      → IsOnDay p start
      → parse_in p f.check_in ≡ some start
      → 0 < n
      → n < 1440
      → f.duration_mins ≡ pos n
      → f.check_out ≡ format_time p.zone (start + n * 60000)
      → Agrees p f
  agrees_of_start f start n d e h1 h2 e2 e3 =
      let (out, read, spans) =
        reread p.zone p.open_hour (base_ms p.target) r.late r.hour start n d.after_opening
          d.within_day d.whole h1 h2 in
      record {
        start = start;
        out = out;
        length_mins = n;
        on_day = d;
        read_in = e;
        read_out = rw e3 read;
        positive = h1;
        below_day = h2;
        duration = e2;
        spans = spans;
      }

  pub check_in_change-Agrees :
      (f : Form) (val : Text) (n : ℕ)
      → IsTimeText val
      → 0 < n
      → n < 1440
      → f.duration_mins ≡ pos n
      → (f' : Form) × (handle_check_in_change p f val ≡ some f') × Agrees p f'
  unfolding handle_check_in_change
  check_in_change-Agrees f val zero v h1 h2 e = absurd (omega arith)
  check_in_change-Agrees f val (suc k) v h1 h2 e =
      let (t, read, d) = read_time_text val v in
      let f' : Form = record f {
        check_in = val;
        check_out = format_time p.zone (t + suc k * 60000);
      } in
      (f', rw (read, e), agrees_of_start f' t (suc k) d read h1 h2 e refl)

  pub check_in_not_empty : (f : Form) → Agrees p f → is_empty f.check_in ≡ false
  check_in_not_empty f a =
      not_empty_of_read p.zone p.open_hour (base_ms p.target) a.start f.check_in a.read_in (
        omega (
          arith,
          start_of_day_bounds p.zone (base_ms p.target) p.open_hour r.late r.hour,
          r.late,
          a.on_day.after_opening,
        ))

  pub duration_change-Agrees :
      (f : Form) (val : DurationInput) (n : ℕ)
      → Agrees p f
      → dur_mins_of val ≡ pos n
      → 0 < n
      → n < 1440
      → (f' : Form) × (handle_duration_change p f val ≡ some f') × Agrees p f'
  unfolding handle_duration_change
  duration_change-Agrees f val zero a e h1 h2 = absurd (omega arith)
  duration_change-Agrees f val (suc k) a e h1 h2 =
      let f' : Form = record f {
        duration_mins = dur_mins_of val;
        check_out = format_time p.zone (a.start + suc k * 60000);
        amount = some (price p.hourly_rate (dur_mins_of val));
      } in
      (
        f',
        rw (e, check_in_not_empty f a, a.read_in),
        agrees_of_start f' a.start (suc k) a.on_day a.read_in h1 h2 e refl,
      )

  pub check_out_change-Agrees :
      (f : Form) (val : Text)
      → Agrees p f
      → IsTimeText val
      → parse_in p val ≢ parse_in p f.check_in
      → (f' : Form) × (handle_check_out_change p f val ≡ some f') × Agrees p f'
  unfolding handle_check_out_change
  check_out_change-Agrees f val a v ne =
      let (t, read, d) = read_time_text val v in
      let differ : t ≢ a.start = λ same. ne (read ∙ ap some same ∙ sym a.read_in) in
      let n : ℕ = (next_day_if_earlier a.start t - a.start) / 60000 in
      let n_lem : (mins_between a.start t ≡ pos n)
          × (0 < n)
          × (n < 1440)
          × (next_day_if_earlier a.start t ≡ a.start + n * 60000) =
        mins_between_lem p a.start t a.on_day d differ in
      let f' : Form = record f {
        check_out = val;
        duration_mins = mins_between a.start t;
        amount = some (price p.hourly_rate (mins_between a.start t));
      } in
      (
        f',
        rw (read, check_in_not_empty f a, a.read_in),
        record {
          start = a.start;
          out = t;
          length_mins = n;
          on_day = a.on_day;
          read_in = a.read_in;
          read_out = read;
          positive = n_lem.1;
          below_day = n_lem.2;
          duration = n_lem.0;
          spans = n_lem.3;
        },
      )
