-- ===== src/Generation/State.antt =====
-- The shared state of the workflow (app/services/generation/state.py), as far as a route or a
-- counter depends on it: what the agents write, the prompts and the token counts are left out.
-- A number that the source reads with `or` is 0 where the key is missing.
use ai_jin_shu.Common.{ℕ, ◌==◌, Bool, Option, String, List, if◌then◌else◌}
use ai_jin_shu.Generation.Policies.{Action, PhaseMode, PacingMode}
use ai_jin_shu.Generation.Plan.{PlanKind}

-- `ChapterVersion.status`, of the rows that the nodes write.
pub data ChapterStatus : Type 0 where
  completed quality_blocked consistency_blocked : ChapterStatus

pub record ChapterVersion : Type 0 where
  pub chapter_num : ℕ
  pub status : ChapterStatus

-- `closure_action` and `closure_phase` are read out of `closure_state`; without one the routes and
-- the pacing go on as after `continue` and in no phase. `plan_kind` is that of `segment_plan`.
-- `chapters` are the rows of the novel version.
pub record GenerationState : Type 0 where
  pub book_start_chapter : ℕ
  pub book_target_total_chapters : ℕ
  pub book_effective_end_chapter : ℕ
  pub book_min_total_chapters : ℕ
  pub book_max_total_chapters : ℕ
  pub segment_start_chapter : ℕ
  pub segment_target_chapters : ℕ
  pub segment_end_chapter : ℕ
  pub num_chapters : ℕ
  pub target_chapters : ℕ
  pub min_total_chapters : ℕ
  pub max_total_chapters : ℕ
  pub start_chapter : ℕ
  pub current_chapter : ℕ
  pub end_chapter : ℕ
  pub volume_no : ℕ
  pub score : ℕ
  pub factual_score : ℕ
  pub aesthetic_review_score : ℕ
  pub review_decision : String
  pub review_attempt : ℕ
  pub rerun_count : ℕ
  pub quality_passed : Bool
  pub blockers : ℕ
  pub consistency_revise_attempts : ℕ
  pub closure_action : Action
  pub closure_phase : PhaseMode
  pub plan_kind : PlanKind
  pub retry_resume_chapter : ℕ
  pub tail_rewrite_attempts : ℕ
  pub bridge_attempts : ℕ
  pub low_progress_streak : ℕ
  pub pacing_mode : PacingMode
  pub quality_blocked_chapters : Option (List ℕ)
  pub chapters : List ChapterVersion

-- `x or d`
abbrev pub or_num : ℕ → ℕ → ℕ
or_num x d = if x == 0 then d else x

-- `int(state.get("segment_start_chapter") or state.get("start_chapter") or 1)`
abbrev pub segment_start_of : GenerationState → ℕ
segment_start_of s = or_num s.segment_start_chapter (or_num s.start_chapter 1)

-- `is_volume_start` of progress.py
abbrev pub is_volume_start : GenerationState → ℕ → Bool
is_volume_start s chapter = chapter == segment_start_of s
