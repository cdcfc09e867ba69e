-- ===== src/Generation/Machine/Measure.antt =====
-- A number that falls with each step of the workflow. `tokens` counts the chapters left, those that
-- a tail rewrite may give back and those that a bridge may add; `local` is the distance to the end
-- of the chapter, with the passes of the writer and of the outline revision that are left.
use ai_jin_shu.Common.{
  ℕ, zero, suc, ◌+◌, ◌-◌, ◌*◌, ◌≤◌, ◌<◌, ◌⊎◌, inl, inr, ltb, arith, if◌then◌else◌,
}
use ai_jin_shu.Generation.State.{GenerationState, or_num}
use ai_jin_shu.Generation.Routes.{Node, RunConfig}

abbrev pub chapters_left : Node → GenerationState → ℕ
chapters_left Node.confirmation_gate s = (s.end_chapter + 1) - s.current_chapter
chapters_left Node.prewrite s = (s.end_chapter + 1) - s.current_chapter
chapters_left Node.outline s = (s.end_chapter + 1) - s.current_chapter
chapters_left Node.closure_gate s = (s.end_chapter + 1) - s.current_chapter
chapters_left Node.bridge_chapter s = (s.end_chapter + 1) - s.current_chapter
chapters_left Node.tail_rewrite s = (s.end_chapter + 1) - s.current_chapter
chapters_left Node.end s = 0
chapters_left Node.failed s = 0
chapters_left Node.waiting s = 0
chapters_left n s = s.end_chapter - s.current_chapter

-- The most bridge chapters that the book's maximum allows.
abbrev pub bridges : GenerationState → ℕ
bridges s = or_num s.book_max_total_chapters s.max_total_chapters

unfoldable pub tokens : Node → GenerationState → ℕ
tokens n s =
    chapters_left n s + 3 * (2 - s.tail_rewrite_attempts) + 2 * (bridges s - s.bridge_attempts)

-- The passes of the writer that may follow the present one.
abbrev pub passes : RunConfig → GenerationState → ℕ
passes c s =
    (c.max_retries - s.review_attempt) + (if ltb s.rerun_count 1 then c.max_retries + 1 else 0)

abbrev pub revisions : RunConfig → GenerationState → ℕ
revisions c s = c.gate.max_outline_revise - s.consistency_revise_attempts

-- An upper bound of the distance within a chapter.
abbrev pub lap : RunConfig → ℕ
lap c = 5 * (2 * c.max_retries + 1) + 2 * c.gate.max_outline_revise + 13

unfoldable pub local : RunConfig → Node → GenerationState → ℕ
local c Node.prewrite s = 3
local c Node.outline s = 2
local c Node.confirmation_gate s = 1
local c Node.volume_replan s = 5 * (2 * c.max_retries + 1) + 2 * c.gate.max_outline_revise + 12
local c Node.load_context s = 5 * (2 * c.max_retries + 1) + 2 * c.gate.max_outline_revise + 11
local c Node.refine_outline s = 5 * passes c s + 2 * revisions c s + 10
local c Node.consistency_check s = 5 * passes c s + 2 * revisions c s + 9
local c Node.outline_revise s = 5 * passes c s + 2 * revisions c s + 8
local c Node.beats s = 5 * passes c s + 8
local c Node.writer s = 5 * passes c s + 7
local c Node.reviewer s = 5 * passes c s + 6
local c Node.cross_chapter_check s = 5 * passes c s + 5
local c Node.finalizer s = 5 * passes c s + 4
local c Node.revise s = 5 * passes c s + 3
local c Node.rollback_rerun s = 5 * passes c s + 3
local c Node.save_blocked s = 4
local c Node.advance_chapter s = 3
local c Node.closure_gate s = 2
local c Node.bridge_chapter s = 1
local c Node.tail_rewrite s = 1
local c n s = 0

-- The most steps that a run still takes.
unfoldable pub steps_left : RunConfig → Node × GenerationState → ℕ
unfolding tokens local
steps_left c (n, s) = lap c * tokens n s + local c n s

pub local-lt-lap : (c : RunConfig) (n : Node) (s : GenerationState) → local c n s < lap c
unfolding local
local-lt-lap c n s = ground arith

-- Fewer tokens pay for any distance within a chapter.
pub tokens_pay : (k a b l : ℕ) → a < b → l < k → k * a + l < k * b
tokens_pay k a zero l h g = omega arith
tokens_pay k zero (suc b) l h g = omega arith
tokens_pay k (suc a) (suc b) l h g = omega (arith, tokens_pay k a b l (omega arith) g)

pub mul_mono : (k a b : ℕ) → a ≤ b → k * a ≤ k * b
mul_mono k zero b h = omega arith
mul_mono k (suc a) zero h = omega arith
mul_mono k (suc a) (suc b) h = omega (arith, mul_mono k a b (omega arith))

-- One step closer: a token less, or no token more and a shorter way within the chapter.
abbrev pub Closer : RunConfig → Node × GenerationState → Node × GenerationState → Type 0
Closer c (n, s) (m, t) =
    (tokens m t < tokens n s) ⊎ ((tokens m t ≤ tokens n s) × (local c m t < local c n s))

pub Closer-steps_left :
    (c : RunConfig) (n m : Node) (s t : GenerationState)
    → Closer c (n, s) (m, t)
    → steps_left c (m, t) < steps_left c (n, s)
unfolding steps_left
Closer-steps_left c n m s t (inl h) =
    omega (arith, tokens_pay (lap c) (tokens m t) (tokens n s) (local c m t) h (local-lt-lap c m t))
Closer-steps_left c n m s t (inr (h, g)) =
    omega (arith, mul_mono (lap c) (tokens m t) (tokens n s) h)
