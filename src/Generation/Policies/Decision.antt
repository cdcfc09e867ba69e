-- ===== src/Generation/Policies/Decision.antt =====
-- When the engines of app/services/generation/policies.py take which action.
use ai_jin_shu.Common.{ℕ, ◌+◌, ◌-◌, ◌*◌, ◌≤◌, ◌<◌, ◌≡◌, ◌≢◌, ◌↔◌, ◌⊎◌, true, arith, max}
use ai_jin_shu.Generation.Policies.{
  PhaseMode, Action, continue_, rewrite_tail, force_finalize, finalize, bridge_chapter,
  in_closing_window, ClosurePolicyInput, closure_action, decide_closure, PacingOutput, normal,
  decide_pacing,
}

-- The coverage is at least `x` ten thousandths, or is below it.
abbrev pub Covers : ClosurePolicyInput → ℕ → Type 0
Covers i x = x * i.must_close_coverage.all_of ≤ i.must_close_coverage.of_all * 10000

abbrev pub Misses : ClosurePolicyInput → ℕ → Type 0
Misses i x = i.must_close_coverage.of_all * 10000 < x * i.must_close_coverage.all_of

-- What the book looks like when a verdict is given.
abbrev pub Justified : ClosurePolicyInput → Action → Type 0
Justified i bridge_chapter =
    (i.target_chapters ≤ i.generated_chapters)
    × (i.generated_chapters < i.max_total_chapters)
    × (0 < i.unresolved_count)
    × (i.target_chapters + i.bridge_attempts < i.max_total_chapters)
Justified i rewrite_tail =
    (i.tail_rewrite_attempts < 2)
    × (((i.max_total_chapters ≤ i.generated_chapters) × (0 < i.unresolved_count))
        ⊎ ((i.min_total_chapters ≤ i.generated_chapters)
            × Misses i i.closure_threshold
            × (in_closing_window i.phase_mode ≡ true)))
Justified i finalize =
    (i.generated_chapters < i.max_total_chapters)
    × (in_closing_window i.phase_mode ≡ true)
    × (((i.min_total_chapters ≤ i.generated_chapters) × Covers i i.closure_threshold)
        ⊎ ((i.target_chapters ≤ i.generated_chapters)
            × (i.unresolved_count ≤ 1)
            × Covers i (max 8500 (i.closure_threshold - 800))))
Justified i force_finalize =
    (i.max_total_chapters ≤ i.generated_chapters)
    × ((i.unresolved_count ≡ 0) ⊎ (2 ≤ i.tail_rewrite_attempts))
Justified i continue_ = i.generated_chapters < i.max_total_chapters

-- Every verdict of the closure policy has its reason: a bridge chapter needs an unresolved item,
-- budget and a book between its target and its maximum; a tail rewrite is at most the second and
-- has an unresolved item at the maximum or too little coverage in the closing window; an early end
-- is below the maximum, in the closing window and with coverage; a forced end comes at the maximum
-- with nothing unresolved or with both rewrites spent; and the book goes on only below the maximum.
pub closure-Justified : (i : ClosurePolicyInput) → Justified i (decide_closure i).action
unfolding decide_closure closure_action
closure-Justified i = ground arith

-- One chapter's verdict, from the streak that the chapter before it left.
abbrev pub paced : PhaseMode → ℕ → ℕ → PacingOutput
paced p streak s =
    decide_pacing (record { phase_mode = p; low_progress_streak = streak; progress_signal = s })

-- Whatever came before and whatever the phase, the pace leaves `normal` exactly when this chapter
-- and the one before it both have a progress signal below 0.45.
pub two_low_chapters :
    (p q : PhaseMode) (streak s t : ℕ)
    → ((paced q (paced p streak s).low_progress_streak t).mode ≢ normal) ↔ ((s < 4500) × (t < 4500))
unfolding decide_pacing
two_low_chapters p q streak s t = ground arith
