-- ===== src/Generation/Machine/Completion.antt =====
-- A run of a segment ends, and leaves a row for every chapter of it.
use ai_jin_shu.Common.{ℕ, ◌-◌, ◌≤◌, ◌<◌, ◌≡◌, true, false, max, arith}
use ai_jin_shu.Generation.State.{
  GenerationState, completed, quality_blocked, consistency_blocked, segment_start_of, or_num,
}
use ai_jin_shu.Generation.Closure.{book_start_of, policy_input, act, node_closure_gate}
use ai_jin_shu.Generation.Nodes.{retry_write_allowed}
use ai_jin_shu.Generation.Policies.{
  Action, PhaseMode, continue_, rewrite_tail, force_finalize, finalize, bridge_chapter,
  decide_closure,
}
use ai_jin_shu.Generation.Routes.{Node, RunConfig, route_next_chapter, route_after_closure_gate}
use ai_jin_shu.Generation.Machine.{Answers, proceed}
use ai_jin_shu.Generation.Machine.Descent.{IsTracked}
use ai_jin_shu.Generation.Machine.Written.{
  has_row, written, written-save_chapter, written-shorter, written-suc, has_row-save_chapter,
}

-- Where the current chapter stands at a node, by what is still to be written.
abbrev pub Placed : Node → GenerationState → Type 0
Placed Node.advance_chapter s =
    (s.segment_start_chapter ≤ s.current_chapter) × (has_row s.current_chapter s.chapters ≡ true)
Placed Node.closure_gate s = s.segment_start_chapter < s.current_chapter
Placed Node.bridge_chapter s = s.segment_start_chapter < s.current_chapter
Placed Node.tail_rewrite s = s.segment_start_chapter < s.current_chapter
Placed Node.end s = s.end_chapter < s.current_chapter
Placed Node.failed s = true ≡ false
Placed Node.waiting s = true ≡ false
Placed n s = s.segment_start_chapter ≤ s.current_chapter

-- Every chapter from `first` and before the current one has a row, and the guard of a retry lets
-- the current one be written.
abbrev pub IsSound : ℕ → Node × GenerationState → Type 0
IsSound first (n, s) =
    (1 ≤ s.segment_start_chapter)
    × (book_start_of s ≤ s.segment_start_chapter)
    × (retry_write_allowed s ≡ true)
    × (written first s.current_chapter s.chapters ≡ true)
    × Placed n s

abbrev SoundAfter : Action → PhaseMode → ℕ → GenerationState → Type 0
SoundAfter a p first s =
    let t = act a (record s { closure_action = a; closure_phase = p }) in
    IsSound first (route_after_closure_gate t, t)

act-IsSound :
    (a : Action) (p : PhaseMode) (first : ℕ) (s : GenerationState) (c : RunConfig)
    → IsTracked c (Node.closure_gate, s)
    → IsSound first (Node.closure_gate, s)
    → SoundAfter a p first s
unfolding route_after_closure_gate route_next_chapter retry_write_allowed
act-IsSound continue_ p first s c t h = ground arith
act-IsSound bridge_chapter p first s c t h = ground arith
act-IsSound rewrite_tail p first s c t h = ground arith
act-IsSound finalize p first s c t h = ground arith
act-IsSound force_finalize p first s c t h = ground arith

pub proceed-IsSound :
    (c : RunConfig) (w : Answers) (first : ℕ) (n : Node) (s : GenerationState)
    → IsTracked c (n, s)
    → IsSound first (n, s)
    → IsSound first (proceed c w (n, s))
unfolding proceed node_closure_gate retry_write_allowed
proceed-IsSound c w first Node.init s t h = ground arith
proceed-IsSound c w first Node.prewrite s t h = ground arith
proceed-IsSound c w first Node.outline s t h = ground arith
proceed-IsSound c w first Node.confirmation_gate s t h = ground arith
proceed-IsSound c w first Node.volume_replan s t h = ground arith
proceed-IsSound c w first Node.load_context s t h = ground arith
proceed-IsSound c w first Node.refine_outline s t h = ground arith
proceed-IsSound c w first Node.consistency_check s t h = ground arith
proceed-IsSound c w first Node.outline_revise s t h = ground arith
proceed-IsSound c w first Node.save_blocked s t h = ground (
  arith,
  written-save_chapter first s.current_chapter s.current_chapter consistency_blocked s.chapters,
  has_row-save_chapter s.current_chapter s.current_chapter consistency_blocked s.chapters,
)
proceed-IsSound c w first Node.beats s t h = ground arith
proceed-IsSound c w first Node.writer s t h = ground arith
proceed-IsSound c w first Node.reviewer s t h = ground arith
proceed-IsSound c w first Node.cross_chapter_check s t h = ground arith
proceed-IsSound c w first Node.revise s t h = ground arith
proceed-IsSound c w first Node.rollback_rerun s t h = ground arith
proceed-IsSound c w first Node.finalizer s t h = ground (
  arith,
  written-save_chapter first s.current_chapter s.current_chapter completed s.chapters,
  written-save_chapter first s.current_chapter s.current_chapter quality_blocked s.chapters,
  has_row-save_chapter s.current_chapter s.current_chapter completed s.chapters,
  has_row-save_chapter s.current_chapter s.current_chapter quality_blocked s.chapters,
)
proceed-IsSound c w first Node.advance_chapter s t h =
    ground (arith, written-suc first s.current_chapter s.chapters)
proceed-IsSound c w first Node.closure_gate s t h =
    let i = policy_input s w.closure_facts in
    act-IsSound (decide_closure i).action i.phase_mode first s c t h
proceed-IsSound c w first Node.bridge_chapter s t h = ground arith
proceed-IsSound c w first Node.tail_rewrite s t h = ground (
  arith,
  written-shorter first s.current_chapter
      (max (segment_start_of s) (or_num s.current_chapter (segment_start_of s) - 2)) s.chapters,
)
proceed-IsSound c w first Node.final_book_review s t h = ground arith
proceed-IsSound c w first Node.quality_rewrite_init s t h = ground arith
proceed-IsSound c w first Node.end s t h = ground arith
proceed-IsSound c w first Node.failed s t h = ground arith
proceed-IsSound c w first Node.waiting s t h = ground arith
