-- ===== src/Drawing/Placement.antt =====
-- The blocks of a row, as they are drawn, and its buttons. A block is 50 pixels wide at least.
use gbc_smart_management.Base.{
  ℕ, ◌≤◌, ◌≡◌, max, ◌<◌, ◌≢◌, ◌⊎◌, inl, inr, arith, Bool, List, [], ◌∷◌, All, All-imp, All-map,
  All-filter_by, pos, ◌+ℤ◌, ◌≤ℤ◌, ◌==◌, filter_by,
}
use gbc_smart_management.Store.{TableState}
use gbc_smart_management.Timeline.{Booking, duration_to_pixels, start_of_day}
use gbc_smart_management.Timeline.Scale.{pixels_apart}
use gbc_smart_management.Slots.{Slot}
use gbc_smart_management.Slots.Sound.{Apart, IsBookable, free_slots-IsBookable}
use gbc_smart_management.Blocks.{Block}
use gbc_smart_management.Blocks.View.{block_view}
use gbc_smart_management.Drawing.{SlotButton, slot_button, row_of}

module _ (tie_up : ℕ → Bool) (zone now open_hour : ℕ) where
  -- The button ends at or before the left edge of the block, as it is drawn, or begins at its right edge or
  -- behind it.
  abbrev pub IsClear : SlotButton → Booking → Type 0
  IsClear u b =
      (state : Block)
      → let v = block_view tie_up zone open_hour now b state in
        (u.left +ℤ pos u.width ≤ℤ v.left) ⊎ (v.left +ℤ pos v.width ≤ℤ u.left)

  -- The block is drawn as wide as the booking lasts.
  abbrev pub IsWide : Booking → Type 0
  IsWide b = 50 ≤ duration_to_pixels b.duration

  button-IsClear :
      (table : ℕ) (s : Slot) (b : Booking)
      → s.start_timestamp ≢ 0
      → b.start_time ≢ 0
      → IsWide b
      → Apart s b
      → IsClear (slot_button tie_up zone open_hour now table s) b
  unfolding slot_button block_view
  button-IsClear table s b hs hb wide (inl before) state =
      inl
        (pixels_apart zone open_hour now s.start_timestamp s.duration_ms b.start_time hs hb before)
  button-IsClear table s b hs hb wide (inr behind) state =
      let same : max (duration_to_pixels b.duration) 50 ≡ duration_to_pixels b.duration =
        omega (arith, wide) in
      inr (
        rw same
          (pixels_apart zone open_hour now b.start_time b.duration s.start_timestamp hb hs behind))

  buttons-IsClear :
      (table : ℕ) (s : Slot) (bs : List Booking)
      → s.start_timestamp ≢ 0
      → All (λ b. b.start_time ≢ 0) bs
      → All IsWide bs
      → All (Apart s) bs
      → All (IsClear (slot_button tie_up zone open_hour now table s)) bs
  buttons-IsClear table s [] hs hb wide h = tt
  buttons-IsClear table s (b ∷ bs) hs hb wide h =
      (button-IsClear table s b hs hb.0 wide.0 h.0, buttons-IsClear table s bs hs hb.1 wide.1 h.1)

  -- With a clock behind the epoch, and bookings that do not start at it and whose time takes 50 pixels, the
  -- least width of a block, or more: in every row of the timeline, each button of a free slot is clear,
  -- in pixels, of the block of each booking that the row draws.
  pub row_of-IsClear :
      (close_hour current_time : ℕ) (bookings : List Booking) (t : TableState)
      → 0 < current_time
      → All (λ b. b.start_time ≢ 0) bookings
      → All IsWide bookings
      → let r = row_of tie_up zone now open_hour close_hour current_time bookings t in
        All (λ u. All (IsClear u) r.blocks) r.buttons
  unfolding row_of
  row_of-IsClear close_hour current_time bookings t late started wide =
      let own = filter_by (λ b. b.table_id == t.table_id) bookings in
      All-map (λ u. All (IsClear u) own) (slot_button tie_up zone open_hour now t.table_id) _
        (All-imp (IsBookable current_time (start_of_day zone now open_hour) own) _
          (λ s b.
            buttons-IsClear t.table_id s own (omega (arith, b.future))
              (All-filter_by _ _ bookings started) (All-filter_by _ _ bookings wide) b.apart)
          _ (free_slots-IsBookable zone now own close_hour current_time open_hour))
