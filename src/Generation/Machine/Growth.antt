-- ===== src/Generation/Machine/Growth.antt =====
-- How far the bridge chapters of a run extend its segment.
use ai_jin_shu.Common.{
  ℕ, zero, suc, ◌+◌, ◌-◌, ◌≤◌, ◌≡◌, List, arith, sym, subst, Bool-cases, false, inl, inr,
}
use ai_jin_shu.Generation.State.{GenerationState, ChapterVersion}
use ai_jin_shu.Generation.Closure.{ClosureFacts, policy_input, act, node_closure_gate}
use ai_jin_shu.Generation.Start.{node_init, flex_window}
use ai_jin_shu.Generation.Policies.{
  Action, PhaseMode, continue_, rewrite_tail, force_finalize, finalize, bridge_chapter,
  decide_closure,
}
use ai_jin_shu.Generation.Policies.Decision.{Justified, closure-Justified}
use ai_jin_shu.Generation.Pipeline.{PipelineArguments, initial_state}
use ai_jin_shu.Generation.Routes.{Node, RunConfig}
use ai_jin_shu.Generation.Machine.{Answers, proceed, step, run, halted}
use ai_jin_shu.Generation.Machine.Descent.{IsTracked, step-advances, step-cases}
use ai_jin_shu.Generation.Machine.Ends.{started, started-IsTracked, halted-run, run-cases}

-- A book of `target` chapters, at the most `most`, whose segment ended at `stop` at first: each
-- chapter beyond is a bridge, and the bridges fit into the maximum.
abbrev pub Fits : ℕ → ℕ → ℕ → GenerationState → Type 0
Fits target most stop s =
    (s.book_target_total_chapters ≡ target)
    × (s.book_max_total_chapters ≡ most)
    × (1 ≤ s.end_chapter)
    × (s.end_chapter ≤ stop + s.bridge_attempts)
    × (s.bridge_attempts ≤ most - target)

module _ (target most stop : ℕ) (positive : 1 ≤ target) (some_most : 1 ≤ most) where
  act-Fits :
      (a : Action) (f : ClosureFacts) (p : PhaseMode) (s : GenerationState)
      → s.segment_end_chapter ≡ s.end_chapter
      → Fits target most stop s
      → Justified (policy_input s f) a
      → Fits target most stop (act a (record s { closure_action = a; closure_phase = p }))
  unfolding policy_input
  act-Fits continue_ f p s e h j = h
  act-Fits rewrite_tail f p s e h j = h
  act-Fits finalize f p s e h j = ground arith
  act-Fits force_finalize f p s e h j = ground arith
  act-Fits bridge_chapter f p s e h (_, _, _, j) = ground arith

  proceed-Fits :
      (c : RunConfig) (w : Answers) (n : Node) (s : GenerationState)
      → IsTracked c (n, s)
      → Fits target most stop s
      → Fits target most stop (proceed c w (n, s)).1
  unfolding proceed node_closure_gate
  proceed-Fits c w Node.init s t h = ground arith
  proceed-Fits c w Node.prewrite s t h = h
  proceed-Fits c w Node.outline s t h = h
  proceed-Fits c w Node.confirmation_gate s t h = h
  proceed-Fits c w Node.volume_replan s t h = h
  proceed-Fits c w Node.load_context s t h = h
  proceed-Fits c w Node.refine_outline s t h = h
  proceed-Fits c w Node.consistency_check s t h = h
  proceed-Fits c w Node.outline_revise s t h = ground arith
  proceed-Fits c w Node.save_blocked s t h = h
  proceed-Fits c w Node.beats s t h = h
  proceed-Fits c w Node.writer s t h = h
  proceed-Fits c w Node.reviewer s t h = ground arith
  proceed-Fits c w Node.cross_chapter_check s t h = ground arith
  proceed-Fits c w Node.revise s t h = h
  proceed-Fits c w Node.rollback_rerun s t h = h
  proceed-Fits c w Node.finalizer s t h = ground arith
  proceed-Fits c w Node.advance_chapter s t h = h
  proceed-Fits c w Node.closure_gate s t h =
      let i = policy_input s w.closure_facts in
      act-Fits (decide_closure i).action w.closure_facts i.phase_mode s t.0 h (closure-Justified i)
  proceed-Fits c w Node.bridge_chapter s t h = h
  proceed-Fits c w Node.tail_rewrite s t h = h
  proceed-Fits c w Node.final_book_review s t h = h
  proceed-Fits c w Node.quality_rewrite_init s t h = ground arith
  proceed-Fits c w Node.end s t h = h
  proceed-Fits c w Node.failed s t h = h
  proceed-Fits c w Node.waiting s t h = h

  step-Fits :
      (c : RunConfig) (w : Answers) (n : Node) (s : GenerationState)
      → halted n ≡ false
      → IsTracked c (n, s)
      → Fits target most stop s
      → Fits target most stop (step c w (n, s)).1
  step-Fits c w n s e t h =
      step-cases (λ x. Fits target most stop x.1) c w n s e h h (proceed-Fits c w n s t h)

  run-Fits :
      (c : RunConfig) (ws : ℕ → Answers) (k : ℕ) (n : Node) (s : GenerationState)
      → IsTracked c (n, s)
      → Fits target most stop s
      → Fits target most stop (run c ws k (n, s)).1
  unfolding run
  run-Fits c ws zero n s t h = h
  run-Fits c ws (suc k) n s t h = elim (Bool-cases (halted n)) [
    | inl e ↦ subst (λ x. Fits target most stop x.1) (sym (halted-run c ws (suc k) n s e)) h
    | inr e ↦
        run-Fits c (λ i. ws (suc i)) k (step c (ws 0) (n, s)).0 (step c (ws 0) (n, s)).1
          (step-advances c (ws 0) n s e t).1 (step-Fits c (ws 0) n s e t h)
  ]

-- The chapters that the flexible length of the novel allows beyond its target.
abbrev pub flex_of : (ℕ → Answers) → PipelineArguments → ℕ
flex_of ws a = flex_window (ws 0).init_facts a.book_target_total_chapters

started-Fits :
    (ws : ℕ → Answers) (a : PipelineArguments) (rows : List ChapterVersion)
    → 1 ≤ a.segment_start_chapter
    → 1 ≤ a.segment_target_chapters
    → 1 ≤ a.book_target_total_chapters
    → Fits a.book_target_total_chapters
        (a.book_target_total_chapters + flex_of ws a)
        ((a.segment_start_chapter + a.segment_target_chapters) - 1)
        (started ws a rows)
unfolding node_init initial_state
started-Fits ws a rows h g f = ground arith

-- A run of a segment of at least one chapter, at any step of it, has its last chapter at the most as
-- many chapters beyond the end it was given as the novel's flexible length allows.
pub segment_within_flex :
    (c : RunConfig) (ws : ℕ → Answers) (a : PipelineArguments) (rows : List ChapterVersion) (k : ℕ)
    → 1 ≤ a.segment_start_chapter
    → 1 ≤ a.segment_target_chapters
    → 1 ≤ a.book_target_total_chapters
    → (run c ws (suc k) (Node.init, initial_state a rows)).1.end_chapter + 1
      ≤ a.segment_start_chapter + a.segment_target_chapters + flex_of ws a
segment_within_flex c ws a rows k h g f =
    let target = a.book_target_total_chapters in
    let fits =
      run-Fits target (target + flex_of ws a)
        ((a.segment_start_chapter + a.segment_target_chapters) - 1) f (omega (arith, f)) c
        (λ i. ws (suc i)) k Node.prewrite (started ws a rows) (started-IsTracked c ws a rows)
        (started-Fits ws a rows h g f) in
    run-cases
      (λ x.
        x.1.end_chapter + 1 ≤ a.segment_start_chapter + a.segment_target_chapters + flex_of ws a)
      c ws k a rows (unfold initial_state in omega (arith, h)) (omega (arith, fits))
