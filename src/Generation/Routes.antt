-- ===== src/Generation/Routes.antt =====
-- The routes of app/services/generation/graph.py: the successor of each node, from its edges and
-- the routing functions.
use ai_jin_shu.Common.{
  ℕ, Bool, not, ◌&&◌, ◌||◌, none, some, String, [], ◌∷◌, ltb, leb, ◌==◌, str_eq, if◌then◌else◌,
}
use ai_jin_shu.Gates.{GateConfig}
use ai_jin_shu.Generation.Policies.{Action}
use ai_jin_shu.Generation.State.{GenerationState, is_volume_start}

-- The nodes of the graph, its end, the state of a run that an exception ended, and that of a run which
-- waits for ever for the confirmation of the outline.
pub data Node : Type 0 where
  init prewrite outline confirmation_gate volume_replan load_context : Node
  refine_outline consistency_check outline_revise save_blocked beats writer : Node
  reviewer cross_chapter_check revise rollback_rerun finalizer : Node
  advance_chapter closure_gate bridge_chapter tail_rewrite : Node
  final_book_review quality_rewrite_init end failed waiting : Node

-- What stays the same during a run: the strategy's retries, the flag
-- `consistency.blocker_hard_gate` for the novel, its gate `consistency.hard_constraint`, the size
-- of a volume, and what `text.strip().lower()` returns.
pub record RunConfig : Type 0 where
  pub max_retries : ℕ
  pub blocker_hard_gate : Bool
  pub gate : GateConfig
  pub volume_size : ℕ
  pub strip_lower : String → String

abbrev pub downgrade_target : RunConfig → String
downgrade_target c = c.strip_lower (elim c.gate.downgrade_to [
  | none ↦ "save_blocked"
  | some t ↦ if str_eq t "" then "save_blocked" else t
])

-- `_route_consistency`
unfoldable pub route_consistency : RunConfig → GenerationState → Node
route_consistency c s =
    if not c.blocker_hard_gate || s.blockers == 0
    then Node.beats
    else if ltb s.consistency_revise_attempts c.gate.max_outline_revise
    then Node.outline_revise
    else if str_eq (downgrade_target c) "warn"
    then Node.beats
    else Node.save_blocked

-- `_route_review`
unfoldable pub route_review : RunConfig → GenerationState → Node
route_review c s =
    if str_eq s.review_decision "accept_with_minor_polish" || leb 7000 s.score
    then Node.finalizer
    else if ltb s.review_attempt c.max_retries
    then Node.revise
    else if ltb s.rerun_count 1
    then Node.rollback_rerun
    else Node.finalizer

-- `_route_after_confirmation` and `_route_after_tail_rewrite`, which are the same function.
unfoldable pub route_next_chapter : GenerationState → Node
route_next_chapter s =
    if ltb s.end_chapter s.current_chapter
    then Node.end
    else if is_volume_start s s.current_chapter
    then Node.volume_replan
    else Node.load_context

-- `_route_finalize`
unfoldable pub route_finalize : RunConfig → GenerationState → Node
route_finalize c s =
    if s.quality_passed
    then Node.advance_chapter
    else if ltb s.rerun_count 1 && ltb 0 c.max_retries
    then Node.rollback_rerun
    else Node.advance_chapter

-- `_route_after_closure_gate`
unfoldable pub route_after_closure_gate : GenerationState → Node
unfolding route_next_chapter
route_after_closure_gate s = elim s.closure_action [
  | Action.rewrite_tail ↦ Node.tail_rewrite
  | Action.bridge_chapter ↦ Node.bridge_chapter
  | a ↦ route_next_chapter s
]

-- `_route_after_final_review`
unfoldable pub route_after_final_review : GenerationState → Node
route_after_final_review s = elim s.quality_blocked_chapters [
  | none ↦ Node.end
  | some [] ↦ Node.end
  | some (n ∷ ns) ↦ Node.quality_rewrite_init
]

-- `_route_after_advance_chapter`
unfoldable pub route_after_advance_chapter : GenerationState → Node
route_after_advance_chapter s = elim s.quality_blocked_chapters [
  | none ↦ Node.closure_gate
  | some [] ↦ Node.end
  | some (n ∷ ns) ↦ Node.quality_rewrite_init
]

-- The edge that is taken out of a node, from the state that the node has left.
unfoldable pub successor : RunConfig → Node → GenerationState → Node
unfolding route_consistency route_review route_next_chapter route_finalize route_after_closure_gate
    route_after_final_review route_after_advance_chapter
successor c Node.init s = Node.prewrite
successor c Node.prewrite s = Node.outline
successor c Node.outline s = Node.confirmation_gate
successor c Node.confirmation_gate s = route_next_chapter s
successor c Node.volume_replan s = Node.load_context
successor c Node.load_context s = Node.refine_outline
successor c Node.refine_outline s = Node.consistency_check
successor c Node.consistency_check s = route_consistency c s
successor c Node.outline_revise s = Node.consistency_check
successor c Node.save_blocked s = Node.advance_chapter
successor c Node.beats s = Node.writer
successor c Node.writer s = Node.reviewer
successor c Node.reviewer s = Node.cross_chapter_check
successor c Node.cross_chapter_check s = route_review c s
successor c Node.revise s = Node.writer
successor c Node.rollback_rerun s = Node.writer
successor c Node.finalizer s = route_finalize c s
successor c Node.advance_chapter s = route_after_advance_chapter s
successor c Node.closure_gate s = route_after_closure_gate s
successor c Node.bridge_chapter s = route_next_chapter s
successor c Node.tail_rewrite s = route_next_chapter s
successor c Node.final_book_review s = route_after_final_review s
successor c Node.quality_rewrite_init s = Node.load_context
successor c Node.end s = Node.end
successor c Node.failed s = Node.failed
successor c Node.waiting s = Node.waiting
