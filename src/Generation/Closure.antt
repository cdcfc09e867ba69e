-- ===== src/Generation/Closure.antt =====
-- app/services/generation/nodes/closure.py: the verdict on the end of the book, and the three
-- nodes that act on it.
use ai_jin_shu.Common.{
  ℕ, ◌+◌, ◌-◌, min, max, Bool, ◌&&◌, Option, List, ltb, leb, length, take, select, or_else,
}
use ai_jin_shu.Generation.Policies.{
  Ratio, closure_phase_mode, Action, continue_, rewrite_tail, force_finalize, finalize,
  bridge_chapter, ClosurePolicyInput, decide_closure,
}
use ai_jin_shu.Generation.Plan.{bridge, tail_rewrite}
use ai_jin_shu.Generation.State.{GenerationState, or_num, segment_start_of}

-- A row of StoryForeshadow.
pub record StoryForeshadow : Type 0 where
  pub planted_chapter : ℕ
  pub is_resolved : Bool

-- A plotline of the prewrite that is a dict: whether its name or id has text, and its end chapter
-- where that reads as a number other than 0.
pub record Plotline : Type 0 where
  pub is_named : Bool
  pub end_ : Option ℕ

-- What the closure reads beside the state: the number of unresolved foreshadows that the story
-- bible lists, the foreshadow rows of the novel, the first 80 plotlines, and the threshold.
pub record ClosureFacts : Type 0 where
  pub unresolved_foreshadows : ℕ
  pub foreshadows : List StoryForeshadow
  pub plotlines : List Plotline
  pub closure_threshold : ℕ

-- The totals that `build_closure_state` reads with their fallbacks.
abbrev pub target_of : GenerationState → ℕ
target_of s =
    or_num s.book_target_total_chapters (or_num s.target_chapters (or_num s.num_chapters 1))

abbrev pub min_total_of : GenerationState → ℕ
min_total_of s = or_num s.book_min_total_chapters (or_num s.min_total_chapters (target_of s))

abbrev pub max_total_of : GenerationState → ℕ
max_total_of s = or_num s.book_max_total_chapters (or_num s.max_total_chapters (target_of s))

abbrev pub chapter_of : GenerationState → ℕ
chapter_of s = or_num s.current_chapter 1

abbrev pub book_end_of : GenerationState → ℕ
book_end_of s = or_num s.book_effective_end_chapter (or_num s.end_chapter (chapter_of s))

abbrev pub book_start_of : GenerationState → ℕ
book_start_of s = or_num s.book_start_chapter (or_num s.start_chapter 1)

-- `max(0, chapter_num - start_chapter)`
abbrev pub generated_of : GenerationState → ℕ
generated_of s = chapter_of s - book_start_of s

abbrev pub plot_end : ℕ → Plotline → ℕ
plot_end target p = or_else p.end_ target

-- The plotlines that count, those that are closed, and those that are open at the book's end.
abbrev pub counted_plotlines : List Plotline → List Plotline
counted_plotlines ps = select (λ p. p.is_named) (take 80 ps)

abbrev pub closed_plotlines : GenerationState → List Plotline → List Plotline
closed_plotlines s ps =
    select (λ p. leb (plot_end (target_of s) p) (generated_of s)) (counted_plotlines ps)

abbrev pub open_plotlines : GenerationState → List Plotline → List Plotline
open_plotlines s ps =
    select
      (λ p.
        leb (plot_end (target_of s) p) (book_end_of s)
        && ltb (generated_of s) (plot_end (target_of s) p))
      (counted_plotlines ps)

abbrev pub planted : GenerationState → List StoryForeshadow → List StoryForeshadow
planted s fs = select (λ f. leb f.planted_chapter (book_end_of s)) fs

abbrev pub resolved : GenerationState → List StoryForeshadow → List StoryForeshadow
resolved s fs = select (λ f. f.is_resolved) (planted s fs)

-- `len(must_close_items)`
abbrev pub unresolved_count_of : GenerationState → ClosureFacts → ℕ
unresolved_count_of s f =
    min 30 f.unresolved_foreshadows + min 20 (length (open_plotlines s f.plotlines))

-- `must_close_coverage`
abbrev pub coverage_of : GenerationState → ClosureFacts → Ratio
coverage_of s f =
    let total = max 1 (length (planted s f.foreshadows) + length (counted_plotlines f.plotlines)) in
    record {
      of_all =
          min total (length (resolved s f.foreshadows) + length (closed_plotlines s f.plotlines));
      all_of = total;
    }

abbrev pub remaining_of : GenerationState → ℕ
remaining_of s = (book_end_of s + 1) - chapter_of s

abbrev pub remaining_ratio_of : GenerationState → Ratio
remaining_ratio_of s = record { of_all = remaining_of s; all_of = max (target_of s) 1 }

-- What `build_closure_state` asks the policy.
unfoldable pub policy_input : GenerationState → ClosureFacts → ClosurePolicyInput
policy_input s f = record {
  generated_chapters = generated_of s;
  target_chapters = target_of s;
  min_total_chapters = min_total_of s;
  max_total_chapters = max_total_of s;
  remaining_chapters = remaining_of s;
  remaining_ratio = remaining_ratio_of s;
  phase_mode = closure_phase_mode (remaining_ratio_of s);
  unresolved_count = unresolved_count_of s f;
  must_close_coverage = coverage_of s f;
  closure_threshold = or_num f.closure_threshold 9500;
  tail_rewrite_attempts = s.tail_rewrite_attempts;
  bridge_attempts = s.bridge_attempts;
}

-- The branch `bridge_chapter` of `node_closure_gate`: the segment and the book grow by a chapter.
abbrev pub extended : GenerationState → GenerationState
extended s =
    let stop = or_num s.segment_end_chapter s.end_chapter + 1 in
    record s {
      book_effective_end_chapter = or_num s.book_effective_end_chapter s.end_chapter + 1;
      segment_end_chapter = stop;
      end_chapter = stop;
      num_chapters = s.num_chapters + 1;
      segment_target_chapters = or_num s.segment_target_chapters s.num_chapters + 1;
      bridge_attempts = s.bridge_attempts + 1;
      plan_kind = bridge;
    }

-- The branches `finalize` and `force_finalize`: the book ends at the last written chapter. The
-- chapter count is 0 where the source's would be negative.
abbrev pub finalized : GenerationState → GenerationState
finalized s =
    let last = max (book_start_of s) (chapter_of s - 1) in
    let stop = min (or_num s.segment_end_chapter (or_num s.end_chapter last)) last in
    record s {
      book_effective_end_chapter = last;
      segment_end_chapter = stop;
      end_chapter = stop;
      num_chapters = (stop + 1) - segment_start_of s;
      segment_target_chapters = (stop + 1) - segment_start_of s;
      current_chapter = last + 1;
    }

-- What `node_closure_gate` updates for each action.
abbrev pub act : Action → GenerationState → GenerationState
act bridge_chapter s = extended s
act finalize s = finalized s
act force_finalize s = finalized s
act rewrite_tail s = record s { plan_kind = tail_rewrite }
act continue_ s = s

-- `node_closure_gate`
unfoldable pub node_closure_gate : ClosureFacts → GenerationState → GenerationState
unfolding policy_input
node_closure_gate f s =
    let i = policy_input s f in
    let a = (decide_closure i).action in
    act a (record s { closure_action = a; closure_phase = i.phase_mode })

-- `node_tail_rewrite`: back by two chapters, not before the segment.
unfoldable pub node_tail_rewrite : GenerationState → GenerationState
node_tail_rewrite s =
    let start = segment_start_of s in
    record s {
      current_chapter = max start (or_num s.current_chapter start - 2);
      tail_rewrite_attempts = s.tail_rewrite_attempts + 1;
      plan_kind = tail_rewrite;
      closure_action = continue_;
    }

-- `node_bridge_chapter`
unfoldable pub node_bridge_chapter : GenerationState → GenerationState
node_bridge_chapter s = record s { closure_action = continue_ }
