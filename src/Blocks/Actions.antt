-- ===== src/Blocks/Actions.antt =====
-- One call at a time.
use gbc_smart_management.Base.{
  ltb, Bool, true, false, List, [], ◌∷◌, ◌≡◌, ◌⊎◌, inl, inr, refl, Bool-cases,
}
use gbc_smart_management.Blocks.{
  Block, Call, update_paid, cancel, toggle_paid, cancel_booking, calling, call_ends, BlockRun,
  BlockEvent, opens, closes, edits, clicks_paid, clicks_cancel, answers, start_call, first_answer,
  block_step,
}

pub run_block : List BlockEvent → BlockRun → BlockRun
run_block [] r = r
run_block (e ∷ es) r = run_block es (block_step e r)

abbrev pub closed_block : BlockRun
closed_block = record { block = record { is_updating = false; show_modal = false }; under_way = [] }

-- A call is under way exactly while the block is updating, and never a second one.
pub IsSingle : BlockRun → Type 0
IsSingle r =
    ((r.block.is_updating ≡ false) × (r.under_way ≡ []))
    ⊎ ((c : Call) × (r.block.is_updating ≡ true) × (r.under_way ≡ c ∷ []))

call_ends_idle : (c : Call) (ok : Bool) (s : Block) → (call_ends c ok s).is_updating ≡ false
unfolding call_ends
call_ends_idle (update_paid id b) ok s = refl
call_ends_idle (cancel id) ok s = refl

block_step-IsSingle : (e : BlockEvent) (r : BlockRun) → IsSingle r → IsSingle (block_step e r)
unfolding block_step IsSingle start_call first_answer toggle_paid cancel_booking calling
block_step-IsSingle opens r h = h
block_step-IsSingle closes r h = h
block_step-IsSingle edits r h = h
block_step-IsSingle (clicks_paid b) r (inl h) = simp (h.0, h.1) (inr (_, refl, refl))
block_step-IsSingle (clicks_paid b) r (inr h) = simp h.1 (inr (h.0, refl, h.2))
block_step-IsSingle (clicks_cancel now b) r (inl h) = elim (Bool-cases (ltb b.start_time now)) [
  | inl past ↦ simp (h.0, past) (inl (refl, h.1))
  | inr ahead ↦ simp (h.0, h.1, ahead) (inr (_, refl, refl))
]
block_step-IsSingle (clicks_cancel now b) r (inr h) = simp h.1 (inr (h.0, refl, h.2))
block_step-IsSingle (answers ok) r (inl h) = simp h.1 (inl (h.0, refl))
block_step-IsSingle (answers ok) r (inr h) = simp h.2 (inl (call_ends_idle h.0 ok r.block, refl))

-- Whatever is clicked and whatever the server answers, also with clicks that come twice: at most one
-- call of a block is under way, and it is while the block is updating.
pub run_block-IsSingle : (es : List BlockEvent) → IsSingle (run_block es closed_block)
unfolding run_block IsSingle
run_block-IsSingle es = from es closed_block (inl (refl, refl))
  where
    from : (es : List BlockEvent) (r : BlockRun) → IsSingle r → IsSingle (run_block es r)
    from [] r h = h
    from (e ∷ es) r h = from es (block_step e r) (block_step-IsSingle e r h)
