-- ===== src/Timeline/CloseHour.antt =====
-- `getDynamicCloseHour`: the timeline is long enough for every booking, up to its cap.
use gbc_smart_management.Base.{
  ℕ, ◌+◌, ◌≤◌, ◌<◌, ◌≡◌, arith, List, [], ◌∷◌, All, pos, pos_part, ◌≤ℤ◌, min, ltb_ℤ, if◌then◌else◌,
}
use gbc_smart_management.Timeline.{Booking, end_hour, max_end_hour, dynamic_close_hour}

module _ (zone open_hour now : ℕ) where
  max_end_hour-le :
      (bs : List Booking) (m : ℕ)
      → (m ≤ max_end_hour zone open_hour now bs m)
        × All (λ b. end_hour zone open_hour now b ≤ℤ pos (max_end_hour zone open_hour now bs m)) bs
  unfolding max_end_hour
  max_end_hour-le [] m = (omega arith, tt)
  max_end_hour-le (b ∷ bs) m =
      let e = end_hour zone open_hour now b in
      let ih = max_end_hour-le bs (if ltb_ℤ (pos m) e then pos_part e else m) in
      (ground (arith, ih.0), (ground (arith, ih.0), ih.1))

  max_end_hour_least :
      (bs : List Booking) (m bound : ℕ)
      → m ≤ bound
      → All (λ b. end_hour zone open_hour now b ≤ℤ pos bound) bs
      → max_end_hour zone open_hour now bs m ≤ bound
  unfolding max_end_hour
  max_end_hour_least [] m bound h hs = h
  max_end_hour_least (b ∷ bs) m bound h hs = max_end_hour_least bs _ bound (ground arith) hs.1

  -- The hour at which the timeline closes is at most 20 hours behind the opening; below that cap it is
  -- at or behind the default hour and the end of every booking, and no smaller hour is so.
  pub dynamic_close_hour_least :
      (bs : List Booking) (default_close_hour : ℕ)
      → let close = dynamic_close_hour zone bs open_hour default_close_hour now in
        (close ≤ open_hour + 20)
        × (close < open_hour + 20
            → (default_close_hour ≤ close)
              × All (λ b. end_hour zone open_hour now b ≤ℤ pos close) bs)
        × ((bound : ℕ)
            → default_close_hour ≤ bound
            → All (λ b. end_hour zone open_hour now b ≤ℤ pos bound) bs
            → close ≤ bound)
  unfolding dynamic_close_hour
  dynamic_close_hour_least bs d =
      let le = max_end_hour-le bs d in
      (
        omega arith,
        λ below.
            let e : min (max_end_hour zone open_hour now bs d) (open_hour + 20)
                ≡ max_end_hour zone open_hour now bs d =
              omega arith in
            rw e le,
        λ bound h hs. omega (arith, max_end_hour_least bs d bound h hs),
      )
