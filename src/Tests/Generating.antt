-- ===== src/Tests/Generating.antt =====
-- Runs of the workflow of a segment, and of its policies.
use ai_jin_shu.Common.{◌+◌, ◌≤◌, ◌≡◌, ◌≢◌, refl, true, false, none, some, [], ◌∷◌, arith, all}
use ai_jin_shu.Gates.{default_gate}
use ai_jin_shu.Generation.Start.{node_init}
use ai_jin_shu.Generation.Plan.{
  PlanKind, member, range, build_segment_plan, segment_plan_covers_range,
}
use ai_jin_shu.Generation.Plan.Coverage.{build_segment_plan-covers}
use ai_jin_shu.Generation.Routes.{Node, RunConfig}
use ai_jin_shu.Generation.Machine.{Answers, run, halted, step, proceed}
use ai_jin_shu.Generation.Machine.Written.{has_row}
use ai_jin_shu.Generation.Machine.Ends.{
  pipeline, enough_steps, started, pipeline_halts, segment_complete, final_review_unreached,
}
use ai_jin_shu.Generation.Machine.Growth.{flex_of, segment_within_flex}
use ai_jin_shu.Generation.Pipeline.{PipelineArguments, initial_state}
use ai_jin_shu.Generation.Policies.{unset, ClosurePolicyInput, decide_closure, closure_phase_mode}
use ai_jin_shu.Generation.Machine.Measure.{steps_left, tokens, local}
use ai_jin_shu.Generation.Policies.Decision.{Justified, closure-Justified}

-- One retry, no outline revision.
abbrev one_retry : RunConfig
one_retry = record {
  max_retries = 1;
  blocker_hard_gate = true;
  gate = default_gate;
  volume_size = 30;
  strip_lower = λ t. t;
}

-- Drafts below the score, and a foreshadow that stays open.
abbrev hard_going : Answers
hard_going = record {
  raises = false;
  is_confirmed = true;
  init_facts = record {
    chapter_flex_max_abs = 1;
    chapter_flex_max_ratio = 1000;
    next_chapter = 0;
    retry_resume_chapter = 0;
    segment_plan = none;
  };
  blockers = 0;
  reviewed = some (record {
    combined = 5000;
    factual_score = 9000;
    aesthetic_score = 9000;
    decision = "accept";
  });
  has_must_fix = false;
  final_text = record { language_score = 9000; aesthetic_score = 9000; progress_signal = 6000 };
  closure_facts = record {
    unresolved_foreshadows = 1;
    foreshadows = [];
    plotlines = [];
    closure_threshold = 9500;
  };
}

abbrev two_chapters : PipelineArguments
two_chapters = record {
  segment_target_chapters = 2;
  segment_start_chapter = 1;
  book_start_chapter = 1;
  book_target_total_chapters = 2;
  book_effective_end_chapter = 2;
  volume_no = 1;
}

-- The book grows by the bridge chapter that its maximum allows.
grows_to_three : (pipeline one_retry 1000 (λ i. hard_going) two_chapters []).1.end_chapter ≡ 3
unfolding run step proceed node_init initial_state steps_left decide_closure closure_phase_mode
grows_to_three = refl

resumes_at_one : (started (λ i. hard_going) two_chapters []).current_chapter ≡ 1
unfolding node_init initial_state
resumes_at_one = refl

enough : enough_steps one_retry (λ i. hard_going) two_chapters [] ≤ 1000
unfolding steps_left node_init initial_state tokens local
enough = omega arith

pipeline_halts_example :
    halted (run one_retry (λ i. hard_going) 1000 (Node.init, initial_state two_chapters [])).0
    ≡ true
pipeline_halts_example = pipeline_halts one_retry (λ i. hard_going) two_chapters [] 1000 enough

segment_complete_example :
    ((pipeline one_retry 1000 (λ i. hard_going) two_chapters []).0 ≡ Node.end)
    × (has_row 3 (pipeline one_retry 1000 (λ i. hard_going) two_chapters []).1.chapters ≡ true)
segment_complete_example =
    segment_complete one_retry 1000 (λ i. hard_going) two_chapters [] 3 (omega arith) (omega arith)
      (omega arith) (λ i. (refl, refl)) enough (omega (arith, resumes_at_one))
      (omega (arith, grows_to_three))

final_review_unreached_example :
    ((run one_retry (λ i. hard_going) 40 (Node.init, initial_state two_chapters [])).0
      ≢ Node.final_book_review)
    × ((run one_retry (λ i. hard_going) 40 (Node.init, initial_state two_chapters [])).0
        ≢ Node.quality_rewrite_init)
final_review_unreached_example =
    final_review_unreached one_retry (λ i. hard_going) two_chapters [] 40

-- Four chapters written of a book of three to five, one item open.
abbrev nearly_done : ClosurePolicyInput
nearly_done = record {
  generated_chapters = 4;
  target_chapters = 4;
  min_total_chapters = 3;
  max_total_chapters = 5;
  remaining_chapters = 0;
  remaining_ratio = record { of_all = 0; all_of = 4 };
  phase_mode = unset;
  unresolved_count = 1;
  must_close_coverage = record { of_all = 1; all_of = 2 };
  closure_threshold = 9500;
  tail_rewrite_attempts = 2;
  bridge_attempts = 0;
}

closure-Justified_example : Justified nearly_done (decide_closure nearly_done).action
closure-Justified_example = closure-Justified nearly_done

build_segment_plan-covers_example :
    segment_plan_covers_range
      (some (build_segment_plan 2 4 1 (4 ∷ 2 ∷ 9 ∷ 3 ∷ 2 ∷ []) PlanKind.bridge))
      2
      4
    ≡ all (λ n. member n (4 ∷ 2 ∷ 9 ∷ 3 ∷ 2 ∷ [])) (range 2 3)
build_segment_plan-covers_example =
    build_segment_plan-covers 2 4 1 (4 ∷ 2 ∷ 9 ∷ 3 ∷ 2 ∷ []) PlanKind.bridge (omega arith)

segment_within_flex_example :
    (run one_retry (λ i. hard_going) 60 (Node.init, initial_state two_chapters [])).1.end_chapter
      + 1
    ≤ 1 + 2 + flex_of (λ i. hard_going) two_chapters
segment_within_flex_example =
    segment_within_flex one_retry (λ i. hard_going) two_chapters [] 59 (omega arith) (omega arith)
      (omega arith)
