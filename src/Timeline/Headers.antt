-- ===== src/Timeline/Headers.antt =====
-- `getTimelineHeaders`
use gbc_smart_management.Base.{
  ℕ, zero, suc, ◌+◌, ◌-◌, ◌*◌, ◌%◌, ◌≤◌, ◌<◌, ◌≡◌, ap, ◌∙◌, arith, pos, scale, List, [], ◌∷◌, ◌++◌,
  map, if◌then◌else◌,
}
use mathlib.Core.Path.{ap₂}
use mathlib.Core.List.{append-nil, map-append}
use gbc_smart_management.Timeline.{
  left, hour_marks, marks_from, timeline_headers, total_timeline_width, hour_12, is_am,
}

-- Every 15 minutes a mark, at 3 pixels to the minute: `n` marks from `x` on.
pub ladder : ℕ → ℕ → List ℕ
ladder x zero = []
ladder x (suc n) = x ∷ ladder (x + 45) n

abbrev at : ℕ → ℕ → ℕ
at o h = (h - o) * 180

hour_marks_inner :
    (o c h : ℕ)
    → o ≤ h
    → h < c
    → map left (hour_marks o c h)
      ≡ at o h ∷ (at o h + 45) ∷ (at o h + 45 + 45) ∷ (at o h + 45 + 45 + 45) ∷ []
unfolding hour_marks
hour_marks_inner o c h p q = ground arith

hour_marks_last : (o c : ℕ) → map left (hour_marks o c c) ≡ at o c ∷ []
unfolding hour_marks
hour_marks_last o c = ground arith

positions_marks :
    (o c h rounds : ℕ)
    → o ≤ h
    → h + rounds ≡ c
    → map left (marks_from o c h (suc rounds)) ≡ ladder (at o h) (suc (rounds * 4))
unfolding marks_from ladder
positions_marks o c h zero p e =
    let end : h ≡ c = omega arith in rw (append-nil, ← end) (hour_marks_last o h)
positions_marks o c h (suc r) p e =
    let four : suc r * 4 ≡ suc (suc (suc (suc (r * 4)))) = omega arith in
    let next : at o (h + 1) ≡ at o h + 45 + 45 + 45 + 45 = omega arith in
    rw four (
      map-append left (hour_marks o c h) (marks_from o c (h + 1) (suc r))
      ∙ ap₂ ◌++◌ (hour_marks_inner o c h p (omega arith)) (
          positions_marks o c (h + 1) r (omega arith) (omega arith)
          ∙ ap (λ x. ladder x (suc (r * 4))) next))

pub last_or : ℕ → List ℕ → ℕ
last_or d [] = d
last_or d (x ∷ xs) = last_or x xs

last-ladder : (x n : ℕ) → last_or x (ladder x (suc n)) ≡ x + n * 45
unfolding ladder last_or
last-ladder x zero = omega arith
last-ladder x (suc n) = last-ladder (x + 45) n ∙ omega arith

-- Where the timeline does not close before it opens, the header's marks stand at every quarter of an
-- hour from its left edge on, four to the hour and one more, and the last of them is at the total width
-- of the timeline.
pub timeline_headers_positions :
    (open_hour close_hour : ℕ)
    → open_hour ≤ close_hour
    → (map left (timeline_headers open_hour close_hour)
        ≡ ladder 0 (suc ((close_hour - open_hour) * 4)))
      × (pos (last_or 0 (map left (timeline_headers open_hour close_hour)))
          ≡ total_timeline_width open_hour close_hour)
unfolding timeline_headers total_timeline_width scale
timeline_headers_positions o c h = (all, rw all (rw (last-ladder 0 ((c - o) * 4)) (ground arith)))
  where
    all : map left (marks_from o c o (c + 1 - o)) ≡ ladder 0 (suc ((c - o) * 4))
    all =
        let count : c + 1 - o ≡ suc (c - o) = omega arith in
        let start : at o o ≡ 0 = omega arith in
        rw (count, ← start) (positions_marks o c o (c - o) (omega arith) (omega arith))

-- The 12-hour reading of an hour below 24 lies between 1 and 12, and together with AM or PM it gives
-- the hour back.
pub hour_12_lem :
    (h : ℕ)
    → h < 24
    → (1 ≤ hour_12 h) × (hour_12 h ≤ 12) × (hour_12 h % 12 + (if is_am h then 0 else 12) ≡ h)
unfolding hour_12 is_am
hour_12_lem h p = ground arith
