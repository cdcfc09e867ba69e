-- ===== src/Generation/Machine/Descent.antt =====
-- Each step of a run towards the end of its segment is a step closer.
use ai_jin_shu.Common.{Bool-cases, inl, inr, subst, sym, ◌+◌, ◌<◌, ◌≡◌, true, false, none, arith}
use ai_jin_shu.Generation.State.{GenerationState}
use ai_jin_shu.Generation.Closure.{
  ClosureFacts, policy_input, act, target_of, max_total_of, node_closure_gate,
}
use ai_jin_shu.Generation.Policies.{
  Action, PhaseMode, continue_, rewrite_tail, force_finalize, finalize, bridge_chapter,
  decide_closure,
}
use ai_jin_shu.Generation.Policies.Decision.{Justified, closure-Justified}
use ai_jin_shu.Generation.Routes.{Node, RunConfig, route_next_chapter, route_after_closure_gate}
use ai_jin_shu.Generation.Machine.{Answers, proceed, step, awaits_confirmation, halted}
use ai_jin_shu.Generation.Machine.Measure.{bridges, tokens, local, Closer}

-- What held when the route to a node was taken. The final review and the quality rewrite are not
-- entered; `init` is the start.
abbrev pub Entered : RunConfig → Node → GenerationState → Type 0
Entered c Node.init s = true ≡ false
Entered c Node.final_book_review s = true ≡ false
Entered c Node.quality_rewrite_init s = true ≡ false
Entered c Node.rollback_rerun s = s.rerun_count ≡ 0
Entered c Node.revise s = s.review_attempt < c.max_retries
Entered c Node.outline_revise s =
    (c.blocker_hard_gate ≡ true)
    × (0 < s.blockers)
    × (s.consistency_revise_attempts < c.gate.max_outline_revise)
Entered c Node.tail_rewrite s = s.tail_rewrite_attempts < 2
Entered c n s = Unit {0}

-- The segment of the state ends at its last chapter, and no quality rewrite is on.
abbrev pub IsTracked : RunConfig → Node × GenerationState → Type 0
IsTracked c (n, s) =
    (s.segment_end_chapter ≡ s.end_chapter) × (s.quality_blocked_chapters ≡ none) × Entered c n s

-- What the verdict must leave room for.
abbrev Affordable : Action → GenerationState → Type 0
Affordable bridge_chapter s = s.bridge_attempts < bridges s
Affordable rewrite_tail s = s.tail_rewrite_attempts < 2
Affordable a s = Unit {0}

room_for_bridge :
    (s : GenerationState)
    → target_of s + s.bridge_attempts < max_total_of s
    → s.bridge_attempts < bridges s
room_for_bridge s h = ground arith

verdict-Affordable :
    (s : GenerationState) (f : ClosureFacts) (a : Action)
    → Justified (policy_input s f) a
    → Affordable a s
unfolding policy_input
verdict-Affordable s f continue_ h = tt
verdict-Affordable s f bridge_chapter (_, _, _, h) = room_for_bridge s h
verdict-Affordable s f rewrite_tail (h, _) = h
verdict-Affordable s f finalize h = tt
verdict-Affordable s f force_finalize h = tt

abbrev after_verdict : Action → PhaseMode → GenerationState → GenerationState
after_verdict a p s = act a (record s { closure_action = a; closure_phase = p })

act-advances :
    (c : RunConfig) (a : Action) (p : PhaseMode) (s : GenerationState)
    → IsTracked c (Node.closure_gate, s)
    → Affordable a s
    → let t = after_verdict a p s in
      Closer c (Node.closure_gate, s) (route_after_closure_gate t, t)
      × IsTracked c (route_after_closure_gate t, t)
unfolding route_after_closure_gate route_next_chapter tokens local
act-advances c continue_ p s h r = ground arith
act-advances c bridge_chapter p s h r = ground arith
act-advances c rewrite_tail p s h r = ground arith
act-advances c finalize p s h r = ground arith
act-advances c force_finalize p s h r = ground arith

pub proceed-advances :
    (c : RunConfig) (w : Answers) (n : Node) (s : GenerationState)
    → halted n ≡ false
    → IsTracked c (n, s)
    → Closer c (n, s) (proceed c w (n, s)) × IsTracked c (proceed c w (n, s))
unfolding proceed node_closure_gate tokens local
proceed-advances c w Node.init s h t = ground arith
proceed-advances c w Node.prewrite s h t = ground arith
proceed-advances c w Node.outline s h t = ground arith
proceed-advances c w Node.confirmation_gate s h t = ground arith
proceed-advances c w Node.volume_replan s h t = ground arith
proceed-advances c w Node.load_context s h t = ground arith
proceed-advances c w Node.refine_outline s h t = ground arith
proceed-advances c w Node.consistency_check s h t = ground arith
proceed-advances c w Node.outline_revise s h t = ground arith
proceed-advances c w Node.save_blocked s h t = ground arith
proceed-advances c w Node.beats s h t = ground arith
proceed-advances c w Node.writer s h t = ground arith
proceed-advances c w Node.reviewer s h t = ground arith
proceed-advances c w Node.cross_chapter_check s h t = ground arith
proceed-advances c w Node.revise s h t = ground arith
proceed-advances c w Node.rollback_rerun s h t = ground arith
proceed-advances c w Node.finalizer s h t = ground arith
proceed-advances c w Node.advance_chapter s h t = ground arith
proceed-advances c w Node.closure_gate s h t =
    let i = policy_input s w.closure_facts in
    act-advances c (decide_closure i).action i.phase_mode s t
      (verdict-Affordable s w.closure_facts (decide_closure i).action (closure-Justified i))
proceed-advances c w Node.bridge_chapter s h t = ground arith
proceed-advances c w Node.tail_rewrite s h t = ground arith
proceed-advances c w Node.final_book_review s h t = ground arith
proceed-advances c w Node.quality_rewrite_init s h t = ground arith
proceed-advances c w Node.end s h t = ground arith
proceed-advances c w Node.failed s h t = ground arith
proceed-advances c w Node.waiting s h t = ground arith

-- A node that raises, or waits for ever, ends the run.
stops-advances :
    (c : RunConfig) (n : Node) (s : GenerationState)
    → halted n ≡ false
    → IsTracked c (n, s)
    → Closer c (n, s) (Node.failed, s) × Closer c (n, s) (Node.waiting, s)
unfolding tokens local
stops-advances c n s h t = ground arith

pub step-raises :
    (c : RunConfig) (w : Answers) (n : Node) (s : GenerationState)
    → halted n ≡ false
    → w.raises ≡ true
    → step c w (n, s) ≡ (Node.failed, s)
unfolding step
step-raises c w n s h r = ground arith

pub step-awaits_confirmation :
    (c : RunConfig) (w : Answers) (n : Node) (s : GenerationState)
    → halted n ≡ false
    → w.raises ≡ false
    → awaits_confirmation w n ≡ true
    → step c w (n, s) ≡ (Node.waiting, s)
unfolding step
step-awaits_confirmation c w n s h r k = ground arith

pub step-proceeds :
    (c : RunConfig) (w : Answers) (n : Node) (s : GenerationState)
    → halted n ≡ false
    → w.raises ≡ false
    → awaits_confirmation w n ≡ false
    → step c w (n, s) ≡ proceed c w (n, s)
unfolding step
step-proceeds c w n s h r k = ground arith

-- What holds after each outcome of a step holds after the step.
pub step-cases {ℓ} :
    (P : Node × GenerationState → Type ℓ) (c : RunConfig) (w : Answers) (n : Node)
    (s : GenerationState)
    → halted n ≡ false
    → P (Node.failed, s)
    → P (Node.waiting, s)
    → P (proceed c w (n, s))
    → P (step c w (n, s))
step-cases P c w n s h failed waiting done = elim (Bool-cases w.raises) [
  | inl r ↦ subst P (sym (step-raises c w n s h r)) failed
  | inr r ↦ elim (Bool-cases (awaits_confirmation w n)) [
    | inl k ↦ subst P (sym (step-awaits_confirmation c w n s h r k)) waiting
    | inr k ↦ subst P (sym (step-proceeds c w n s h r k)) done
  ]
]

pub step-advances :
    (c : RunConfig) (w : Answers) (n : Node) (s : GenerationState)
    → halted n ≡ false
    → IsTracked c (n, s)
    → Closer c (n, s) (step c w (n, s)) × IsTracked c (step c w (n, s))
step-advances c w n s h t =
    let stops = stops-advances c n s h t in
    step-cases (λ x. Closer c (n, s) x × IsTracked c x) c w n s h (stops.0, (t.0, t.1, tt))
      (stops.1, (t.0, t.1, tt)) (proceed-advances c w n s h t)
