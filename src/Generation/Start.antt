-- ===== src/Generation/Start.antt =====
-- app/services/generation/nodes/init_node.py: the state that a run starts with.
use ai_jin_shu.Common.{
  ℕ, ◌+◌, ◌-◌, ◌*◌, ◌/◌, ◌%◌, min, max, ◌||◌, Option, none, some, ltb, if◌then◌else◌,
}
use ai_jin_shu.Generation.Policies.{unset, continue_, normal}
use ai_jin_shu.Generation.Plan.{SegmentPlan, PlanKind, segment_plan_covers_range}
use ai_jin_shu.Generation.State.{GenerationState, or_num}

-- The configuration of the novel and the runtime state of its task, which `node_init` reads.
pub record InitFacts : Type 0 where
  pub chapter_flex_max_abs : ℕ
  pub chapter_flex_max_ratio : ℕ
  pub next_chapter : ℕ
  pub retry_resume_chapter : ℕ
  pub segment_plan : Option SegmentPlan

-- `round(total * ratio)`: a half goes to the even neighbour.
abbrev pub round_ratio : ℕ → ℕ → ℕ
round_ratio total ratio =
    let q = total * ratio / 10000 in
    let r = total * ratio % 10000 * 2 in
    if ltb r 10000 then q else if ltb 10000 r then q + 1 else q + q % 2

-- `flex_window` of `node_init`
abbrev pub flex_window : InitFacts → ℕ → ℕ
flex_window f total =
    let by_ratio = round_ratio total (or_num f.chapter_flex_max_ratio 1000) in
    let by_abs = or_num f.chapter_flex_max_abs 2 in
    min by_abs (if ltb 0 by_ratio then by_ratio else by_abs)

-- The chapter to go on with: that of the runtime state when it lies in the segment.
abbrev pub resume_chapter : InitFacts → ℕ → ℕ → ℕ
resume_chapter f start stop =
    let n = or_num f.next_chapter start in if ltb n start || ltb (stop + 1) n then start else n

-- The kind of the stored plan when it covers the segment, and that of the one made anew if not.
abbrev pub restored_kind : InitFacts → ℕ → ℕ → PlanKind
restored_kind f start stop = elim f.segment_plan [
  | none ↦ PlanKind.normal
  | some p ↦ if segment_plan_covers_range (some p) start stop then p.plan_kind else PlanKind.normal
]

-- `node_init`, on the arguments of `run_generation_pipeline_langgraph`.
unfoldable pub node_init : InitFacts → GenerationState → GenerationState
node_init f s =
    let start = or_num s.segment_start_chapter s.start_chapter in
    let target = or_num s.segment_target_chapters s.num_chapters in
    let stop = or_num s.segment_end_chapter ((start + target) - 1) in
    let book = or_num s.book_start_chapter start in
    let total = or_num s.book_target_total_chapters s.num_chapters in
    let flex = flex_window f total in
    let resumed = resume_chapter f start stop in
    record s {
      book_start_chapter = book;
      book_target_total_chapters = total;
      book_effective_end_chapter =
          max (or_num s.book_effective_end_chapter ((book + total) - 1)) stop;
      book_min_total_chapters = max 1 (total - flex);
      book_max_total_chapters = max total (total + flex);
      segment_start_chapter = start;
      segment_target_chapters = target;
      segment_end_chapter = stop;
      current_chapter = resumed;
      start_chapter = start;
      num_chapters = target;
      end_chapter = stop;
      plan_kind = restored_kind f start stop;
      retry_resume_chapter = or_num f.retry_resume_chapter resumed;
      target_chapters = total;
      min_total_chapters = max 1 (total - flex);
      max_total_chapters = max total (total + flex);
      review_attempt = 0;
      rerun_count = 0;
      volume_no = or_num s.volume_no 1;
      closure_action = continue_;
      closure_phase = unset;
      tail_rewrite_attempts = 0;
      bridge_attempts = 0;
      low_progress_streak = 0;
      pacing_mode = normal;
      review_decision = "";
    }
