-- ===== src/Generation/Machine.antt =====
-- The workflow as a machine: at each node the node's function, then the edge that is taken.
pub mod Measure
pub mod Descent
pub mod Written
pub mod Completion
pub mod Ends
pub mod Growth
use ai_jin_shu.Common.{
  ℕ, zero, suc, Bool, true, false, Option, String, not, if◌then◌else◌, Result, ok, err,
}
use ai_jin_shu.Generation.State.{GenerationState}
use ai_jin_shu.Generation.Closure.{
  ClosureFacts, node_closure_gate, node_tail_rewrite, node_bridge_chapter,
}
use ai_jin_shu.Generation.Nodes.{
  node_load_context, node_outline_revise, Reviewed, node_review, node_cross_chapter_check,
  node_revise, node_rollback_rerun, node_save_blocked, FinalText, node_finalize,
  node_advance_chapter, node_volume_replan, node_final_book_review, node_quality_rewrite_init,
}
use ai_jin_shu.Generation.Start.{InitFacts, node_init}
use ai_jin_shu.Generation.Routes.{Node, RunConfig, successor}

-- What the models, the database and the heuristics answer during one step. A step reads the answers
-- that its node asks for.
pub record Answers : Type 0 where
  pub raises : Bool
  pub is_confirmed : Bool
  pub init_facts : InitFacts
  pub blockers : ℕ
  pub reviewed : Option Reviewed
  pub has_must_fix : Bool
  pub final_text : FinalText
  pub closure_facts : ClosureFacts

-- The node's function. `prewrite`, `outline`, `confirmation_gate`, `refine_outline`, `beats` and
-- `writer` write no field of the state.
unfoldable pub perform :
    RunConfig → Answers → Node → GenerationState → Result String GenerationState
unfolding node_init node_volume_replan node_load_context node_outline_revise node_save_blocked
    node_review node_cross_chapter_check node_revise node_rollback_rerun node_finalize
    node_advance_chapter node_closure_gate node_bridge_chapter node_tail_rewrite
    node_final_book_review node_quality_rewrite_init
perform c w Node.init s = ok (node_init w.init_facts s)
perform c w Node.volume_replan s = ok (node_volume_replan c.volume_size s)
perform c w Node.load_context s = ok (node_load_context s)
perform c w Node.consistency_check s = ok (record s { blockers = w.blockers })
perform c w Node.outline_revise s = ok (node_outline_revise c.blocker_hard_gate s)
perform c w Node.save_blocked s = ok (node_save_blocked s)
perform c w Node.reviewer s = ok (node_review w.reviewed s)
perform c w Node.cross_chapter_check s = ok (node_cross_chapter_check w.has_must_fix s)
perform c w Node.revise s = ok (node_revise s)
perform c w Node.rollback_rerun s = ok (node_rollback_rerun s)
perform c w Node.finalizer s = node_finalize w.final_text s
perform c w Node.advance_chapter s = ok (node_advance_chapter s)
perform c w Node.closure_gate s = ok (node_closure_gate w.closure_facts s)
perform c w Node.bridge_chapter s = ok (node_bridge_chapter s)
perform c w Node.tail_rewrite s = ok (node_tail_rewrite s)
perform c w Node.final_book_review s = ok (node_final_book_review s)
perform c w Node.quality_rewrite_init s = ok (node_quality_rewrite_init s)
perform c w n s = ok s

-- A node that returns, and the edge that is taken.
unfoldable pub proceed : RunConfig → Answers → Node × GenerationState → Node × GenerationState
unfolding perform successor
proceed c w (n, s) = elim (perform c w n s) [
  | ok s' ↦ (successor c n s', s')
  | err e ↦ (Node.failed, s)
]

-- `while ct` and `while gt` of `node_confirmation_gate` have no end without the confirmation.
abbrev pub awaits_confirmation : Answers → Node → Bool
awaits_confirmation w Node.confirmation_gate = not w.is_confirmed
awaits_confirmation w n = false

-- The run has ended, at the end of the graph or with an exception, or waits for ever.
abbrev pub halted : Node → Bool
halted Node.end = true
halted Node.failed = true
halted Node.waiting = true
halted n = false

-- One step of the compiled graph.
unfoldable pub step : RunConfig → Answers → Node × GenerationState → Node × GenerationState
step c w (n, s) =
    if halted n
    then (n, s)
    else if w.raises
    then (Node.failed, s)
    else if awaits_confirmation w n
    then (Node.waiting, s)
    else proceed c w (n, s)

-- The run of so many steps, the answers of the i-th step being `ws i`.
unfoldable pub run : RunConfig → (ℕ → Answers) → ℕ → Node × GenerationState → Node × GenerationState
unfolding step
run c ws zero x = x
run c ws (suc n) x = run c (λ i. ws (suc i)) n (step c (ws 0) x)

-- The call `invoke` of the compiled graph: LangGraph ends a run that takes more steps than its
-- recursion limit with an exception.
abbrev pub invoke : RunConfig → ℕ → (ℕ → Answers) → Node × GenerationState → Node × GenerationState
invoke c recursion_limit ws x =
    let y = run c ws recursion_limit x in if halted y.0 then y else (Node.failed, y.1)
