-- ===== src/Generation/Policies.antt =====
-- app/services/generation/policies.py, and `closure_phase_mode` of progress.py, which feeds it.
pub mod Decision
use ai_jin_shu.Common.{
  ℕ, suc, ◌-◌, ◌*◌, min, max, Bool, true, false, not, ◌&&◌, String, List, [], ◌∷◌, ltb, leb,
  if◌then◌else◌,
}

-- A quotient of two counts.
pub record Ratio : Type 0 where
  pub of_all : ℕ
  pub all_of : ℕ

-- `ratio >= x` and `ratio > x`, x in ten thousandths
abbrev pub at_least : ℕ → Ratio → Bool
at_least x r = leb (x * r.all_of) (r.of_all * 10000)

abbrev pub above : ℕ → Ratio → Bool
above x r = ltb (x * r.all_of) (r.of_all * 10000)

-- `unset` is the empty text that a state without a closure verdict reads.
pub data PhaseMode : Type 0 where
  unset expand converge closing finale : PhaseMode

pub data Action : Type 0 where
  continue_ rewrite_tail force_finalize finalize bridge_chapter : Action

-- `closure_phase_mode`
unfoldable pub closure_phase_mode : Ratio → PhaseMode
closure_phase_mode r =
    if above 3500 r
    then expand
    else if above 1500 r
    then converge
    else if above 500 r
    then closing
    else finale

-- `phase_mode in {"closing", "finale"}`
abbrev pub in_closing_window : PhaseMode → Bool
in_closing_window closing = true
in_closing_window finale = true
in_closing_window p = false

pub record ClosurePolicyInput : Type 0 where
  pub generated_chapters : ℕ
  pub target_chapters : ℕ
  pub min_total_chapters : ℕ
  pub max_total_chapters : ℕ
  pub remaining_chapters : ℕ
  pub remaining_ratio : Ratio
  pub phase_mode : PhaseMode
  pub unresolved_count : ℕ
  pub must_close_coverage : Ratio
  pub closure_threshold : ℕ
  pub tail_rewrite_attempts : ℕ
  pub bridge_attempts : ℕ

pub record ClosurePolicyOutput : Type 0 where
  pub action : Action
  pub reason_codes : List String
  pub confidence : ℕ
  pub bridge_budget_total : ℕ
  pub bridge_budget_left : ℕ
  pub tail_rewrite_left : ℕ

-- `max(0, max_total_chapters - target_chapters)`, and what the bridges so far leave of it.
abbrev pub bridge_budget : ClosurePolicyInput → ℕ
bridge_budget i = i.max_total_chapters - i.target_chapters

abbrev pub bridge_left : ClosurePolicyInput → ℕ
bridge_left i = bridge_budget i - i.bridge_attempts

-- The named tests of `ClosurePolicyEngine.decide`.
abbrev pub must_force_finalize : ClosurePolicyInput → Bool
must_force_finalize i = leb i.max_total_chapters i.generated_chapters

abbrev pub can_finalize_early : ClosurePolicyInput → Bool
can_finalize_early i =
    leb i.min_total_chapters i.generated_chapters
    && at_least i.closure_threshold i.must_close_coverage
    && in_closing_window i.phase_mode

abbrev pub can_soft_finalize : ClosurePolicyInput → Bool
can_soft_finalize i =
    leb i.target_chapters i.generated_chapters
    && leb i.unresolved_count 1
    && at_least (max 8500 (i.closure_threshold - 800)) i.must_close_coverage
    && in_closing_window i.phase_mode

abbrev pub need_rewrite_for_coverage : ClosurePolicyInput → Bool
need_rewrite_for_coverage i =
    leb i.min_total_chapters i.generated_chapters
    && not (at_least i.closure_threshold i.must_close_coverage)
    && in_closing_window i.phase_mode
    && ltb i.tail_rewrite_attempts 2

abbrev pub can_extend : ClosurePolicyInput → Bool
can_extend i =
    leb i.target_chapters i.generated_chapters
    && ltb i.generated_chapters i.max_total_chapters
    && ltb 0 i.unresolved_count
    && ltb 0 (bridge_left i)

-- The chain of tests, with the reason codes of each branch.
unfoldable pub closure_action : ClosurePolicyInput → Action × List String
closure_action i =
    if must_force_finalize i && ltb 0 i.unresolved_count && ltb i.tail_rewrite_attempts 2
    then (rewrite_tail, "max_reached_unresolved" ∷ "tail_rewrite_available" ∷ [])
    else if must_force_finalize i
    then (force_finalize, "max_reached" ∷ [])
    else if need_rewrite_for_coverage i
    then (rewrite_tail, "coverage_below_threshold" ∷ "in_closing_window" ∷ [])
    else if can_finalize_early i
    then (finalize, "coverage_pass" ∷ "min_reached" ∷ "in_closing_window" ∷ [])
    else if can_soft_finalize i
    then (finalize, "soft_finalize" ∷ "near_threshold" ∷ "few_unresolved" ∷ [])
    else if can_extend i
    then (bridge_chapter, "unresolved_pending" ∷ "bridge_budget_available" ∷ [])
    else (continue_, "continue_default" ∷ [])

abbrev pub confidence_of : ClosurePolicyInput → Action → ℕ
confidence_of i finalize = if at_least i.closure_threshold i.must_close_coverage then 9000 else 7500
confidence_of i force_finalize =
    if at_least i.closure_threshold i.must_close_coverage then 9000 else 7500
confidence_of i rewrite_tail = 8500
confidence_of i bridge_chapter = 8000
confidence_of i continue_ = 7000

-- `ClosurePolicyEngine.decide`
unfoldable pub decide_closure : ClosurePolicyInput → ClosurePolicyOutput
unfolding closure_action
decide_closure i =
    let (a, reasons) = closure_action i in
    record {
      action = a;
      reason_codes = reasons;
      confidence = confidence_of i a;
      bridge_budget_total = bridge_budget i;
      bridge_budget_left = bridge_left i;
      tail_rewrite_left = 2 - i.tail_rewrite_attempts;
    }

pub record PacingInput : Type 0 where
  pub phase_mode : PhaseMode
  pub low_progress_streak : ℕ
  pub progress_signal : ℕ

pub data PacingMode : Type 0 where
  normal accelerated closing_accelerated : PacingMode

pub record PacingOutput : Type 0 where
  pub mode : PacingMode
  pub low_progress_streak : ℕ
  pub progress_signal : ℕ
  pub reason_codes : List String

abbrev pub next_streak : PacingInput → ℕ
next_streak i = if ltb i.progress_signal 4500 then suc i.low_progress_streak else 0

-- The mode and its reasons, by `next_streak >= 2` and by the closing window.
abbrev pub pace : Bool → Bool → PacingMode × List String
pace true true = (closing_accelerated, "low_progress_streak" ∷ "closing_window" ∷ [])
pace true false = (accelerated, "low_progress_streak" ∷ [])
pace false true = (normal, "closing_window" ∷ [])
pace false false = (normal, "default" ∷ [])

-- `PacingController.decide`, on a signal that is not negative.
unfoldable pub decide_pacing : PacingInput → PacingOutput
decide_pacing i =
    let (m, reasons) = pace (leb 2 (next_streak i)) (in_closing_window i.phase_mode) in
    record {
      mode = m;
      low_progress_streak = next_streak i;
      progress_signal = min 10000 i.progress_signal;
      reason_codes = reasons;
    }
