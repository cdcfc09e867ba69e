-- ===== src/Generation/Nodes.antt =====
-- What the other nodes of the workflow write: in app/services/generation/nodes, chapter_loop.py,
-- outline_revise.py, review.py, cross_chapter_check.py, finalize.py, volume.py and final_review.py.
-- What a model call, the database or a heuristic answers is an argument.
use ai_jin_shu.Common.{
  ℕ, ◌+◌, ◌-◌, ◌/◌, max, Bool, true, false, not, ◌&&◌, ◌||◌, Option, none, some, String, List, [],
  ◌∷◌, ◌++◌, leb, ◌==◌, is_some, select, if◌then◌else◌, Result, ok, err,
}
use ai_jin_shu.Common.Table.{find, put}
use ai_jin_shu.Generation.Policies.{PacingOutput, decide_pacing}
use ai_jin_shu.Generation.Plan.{PlanKind, sorted}
use ai_jin_shu.Generation.State.{
  GenerationState, ChapterVersion, ChapterStatus, completed, quality_blocked, consistency_blocked,
  or_num,
}
use ai_jin_shu.Generation.Closure.{book_start_of}

-- `node_load_context`: the counters of the chapter start again.
unfoldable pub node_load_context : GenerationState → GenerationState
node_load_context s = record s {
  score = 0;
  factual_score = 0;
  aesthetic_review_score = 0;
  review_attempt = 0;
  rerun_count = 0;
}

-- `node_outline_revise`, with the gate's flag as its first argument.
unfoldable pub node_outline_revise : Bool → GenerationState → GenerationState
node_outline_revise enabled s =
    if not enabled || s.blockers == 0
    then s
    else record s { consistency_revise_attempts = s.consistency_revise_attempts + 1 }

-- The best draft that `node_review` found.
pub record Reviewed : Type 0 where
  pub combined : ℕ
  pub factual_score : ℕ
  pub aesthetic_score : ℕ
  pub decision : String

-- What `node_review` returns.
unfoldable pub node_review : Option Reviewed → GenerationState → GenerationState
node_review none s = record s { score = 0; factual_score = 7500; aesthetic_review_score = 7500 }
node_review (some best) s = record s {
  score = best.combined;
  factual_score = best.factual_score;
  aesthetic_review_score = best.aesthetic_score;
  review_decision = best.decision;
}

-- The end of `node_cross_chapter_check`: a contradiction that must be fixed forces a rewrite.
unfoldable pub node_cross_chapter_check : Bool → GenerationState → GenerationState
node_cross_chapter_check has_must_fix s =
    if has_must_fix then record s { review_decision = "rewrite" } else s

-- `node_revise`
unfoldable pub node_revise : GenerationState → GenerationState
node_revise s = record s { review_attempt = s.review_attempt + 1 }

-- `node_rollback_rerun`
unfoldable pub node_rollback_rerun : GenerationState → GenerationState
node_rollback_rerun s = record s { rerun_count = s.rerun_count + 1; review_attempt = 0 }

-- The row of a chapter, written over the one that exists.
unfoldable pub save_chapter : ℕ → ChapterStatus → List ChapterVersion → List ChapterVersion
save_chapter n status rows =
    let row : ChapterVersion = record { chapter_num = n; status = status } in
    if is_some (find (λ r. r.chapter_num == n) rows)
    then put (λ r. r.chapter_num == n) row rows
    else rows ++ row ∷ []

-- `node_save_blocked`
unfoldable pub node_save_blocked : GenerationState → GenerationState
unfolding save_chapter
node_save_blocked s = record s {
  chapters = save_chapter s.current_chapter consistency_blocked s.chapters;
}

-- The three scores of the final text, and the progress signal of its heuristic.
pub record FinalText : Type 0 where
  pub language_score : ℕ
  pub aesthetic_score : ℕ
  pub progress_signal : ℕ

-- `state.get("progression_score", 0.0)`: the state has no such key, so LangGraph drops the score that
-- the review returns under it.
abbrev pub progression_score : GenerationState → ℕ
progression_score s = 0

-- `_is_quality_passed`
unfoldable pub is_quality_passed : GenerationState → FinalText → Bool
is_quality_passed s t =
    leb 7000 s.score
    && leb 6500 s.factual_score
    && leb 6200 (progression_score s)
    && leb 6000 t.language_score
    && leb 6000 s.aesthetic_review_score
    && leb 6000 t.aesthetic_score

-- `_is_structural_replan`
abbrev pub is_structural_replan : PlanKind → Bool
is_structural_replan PlanKind.normal = false
is_structural_replan k = true

-- `_ensure_retry_write_allowed`: whether it returns.
unfoldable pub retry_write_allowed : GenerationState → Bool
retry_write_allowed s =
    (s.retry_resume_chapter == 0)
    || leb s.retry_resume_chapter s.current_chapter
    || is_structural_replan s.plan_kind

abbrev pub paced_by : GenerationState → FinalText → PacingOutput
paced_by s t = decide_pacing (record {
  phase_mode = s.closure_phase;
  low_progress_streak = s.low_progress_streak;
  progress_signal = t.progress_signal;
})

-- `node_finalize`; the exception of the retry guard ends the run.
unfoldable pub node_finalize : FinalText → GenerationState → Result String GenerationState
unfolding is_quality_passed retry_write_allowed save_chapter
node_finalize t s =
    if retry_write_allowed s
    then ok (record s {
      quality_passed = is_quality_passed s t;
      low_progress_streak = (paced_by s t).low_progress_streak;
      pacing_mode = (paced_by s t).mode;
      chapters =
          save_chapter s.current_chapter
            (if is_quality_passed s t then completed else quality_blocked) s.chapters;
    })
    else err "generation retry overwrite blocked"

-- `node_advance_chapter`
unfoldable pub node_advance_chapter : GenerationState → GenerationState
node_advance_chapter s = record s { current_chapter = s.current_chapter + 1 }

-- `volume_no_for_chapter` with `volume_size`
unfoldable pub volume_no_for_chapter : ℕ → GenerationState → ℕ → ℕ
volume_no_for_chapter volume_size s chapter =
    or_num s.volume_no ((chapter - book_start_of s) / max (or_num volume_size 30) 1 + 1)

-- `node_volume_replan`
unfoldable pub node_volume_replan : ℕ → GenerationState → GenerationState
unfolding volume_no_for_chapter
node_volume_replan volume_size s = record s {
  volume_no = volume_no_for_chapter volume_size s s.current_chapter;
}

-- The numbers of the `quality_blocked` rows, in the order of the rows.
abbrev pub is_quality_blocked : ChapterVersion → Bool
is_quality_blocked r = elim r.status [ quality_blocked ↦ true | s ↦ false ]

abbrev pub numbers : List ChapterVersion → List ℕ
numbers [] = []
numbers (r ∷ rs) = r.chapter_num ∷ numbers rs

-- What `node_final_book_review` returns: the blocked chapters, by number.
unfoldable pub node_final_book_review : GenerationState → GenerationState
node_final_book_review s = record s {
  quality_blocked_chapters = some (sorted (numbers (select is_quality_blocked s.chapters)));
}

-- `node_quality_rewrite_init`: the next blocked chapter is written again.
unfoldable pub node_quality_rewrite_init : GenerationState → GenerationState
node_quality_rewrite_init s = elim s.quality_blocked_chapters [
  | none ↦ record s { quality_blocked_chapters = some [] }
  | some [] ↦ record s { quality_blocked_chapters = some [] }
  | some (target ∷ remaining) ↦ record s {
    current_chapter = target;
    quality_blocked_chapters = some remaining;
    review_attempt = 0;
    rerun_count = 0;
  }
]
