-- ===== src/Generation/Pipeline.antt =====
-- `run_generation_pipeline_langgraph` of app/services/generation/graph.py: what it is called with,
-- and the state that it hands to the graph.
use ai_jin_shu.Common.{ℕ, ◌+◌, ◌-◌, true, none, List}
use ai_jin_shu.Generation.Policies.{unset, continue_, normal}
use ai_jin_shu.Generation.Plan.{PlanKind}
use ai_jin_shu.Generation.State.{GenerationState, ChapterVersion}

pub record PipelineArguments : Type 0 where
  pub segment_target_chapters : ℕ
  pub segment_start_chapter : ℕ
  pub book_start_chapter : ℕ
  pub book_target_total_chapters : ℕ
  pub book_effective_end_chapter : ℕ
  pub volume_no : ℕ

-- A key that the call does not set is missing, which reads as 0; `rows` are the chapters of the
-- novel version in the database.
unfoldable pub initial_state : PipelineArguments → List ChapterVersion → GenerationState
initial_state a rows = record {
  book_start_chapter = a.book_start_chapter;
  book_target_total_chapters = a.book_target_total_chapters;
  book_effective_end_chapter = a.book_effective_end_chapter;
  book_min_total_chapters = 0;
  book_max_total_chapters = 0;
  segment_start_chapter = a.segment_start_chapter;
  segment_target_chapters = a.segment_target_chapters;
  segment_end_chapter = (a.segment_start_chapter + a.segment_target_chapters) - 1;
  num_chapters = a.segment_target_chapters;
  target_chapters = 0;
  min_total_chapters = 0;
  max_total_chapters = 0;
  start_chapter = a.segment_start_chapter;
  current_chapter = 0;
  end_chapter = 0;
  volume_no = a.volume_no;
  score = 0;
  factual_score = 0;
  aesthetic_review_score = 0;
  review_decision = "";
  review_attempt = 0;
  rerun_count = 0;
  quality_passed = true;
  blockers = 0;
  consistency_revise_attempts = 0;
  closure_action = continue_;
  closure_phase = unset;
  plan_kind = PlanKind.normal;
  retry_resume_chapter = 0;
  tail_rewrite_attempts = 0;
  bridge_attempts = 0;
  low_progress_streak = 0;
  pacing_mode = normal;
  quality_blocked_chapters = none;
  chapters = rows;
}
