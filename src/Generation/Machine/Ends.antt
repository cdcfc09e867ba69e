-- ===== src/Generation/Machine/Ends.antt =====
-- The theorems on a whole run of `run_generation_pipeline_langgraph`.
use ai_jin_shu.Common.{
  ℕ, zero, suc, ◌≤◌, ◌<◌, ◌≡◌, ◌≢◌, refl, true, false, List, arith, sym, subst, Bool-cases, inl,
  inr,
}
use ai_jin_shu.Generation.State.{GenerationState, ChapterVersion}
use ai_jin_shu.Generation.Nodes.{retry_write_allowed}
use ai_jin_shu.Generation.Start.{node_init}
use ai_jin_shu.Generation.Pipeline.{PipelineArguments, initial_state}
use ai_jin_shu.Generation.Routes.{Node, RunConfig}
use ai_jin_shu.Generation.Machine.{Answers, proceed, step, run, invoke, awaits_confirmation, halted}
use ai_jin_shu.Generation.Machine.Measure.{steps_left, Closer-steps_left}
use ai_jin_shu.Generation.Machine.Descent.{IsTracked, step-advances, step-raises, step-proceeds}
use ai_jin_shu.Generation.Machine.Completion.{IsSound, proceed-IsSound}
use ai_jin_shu.Generation.Machine.Written.{has_row, written-empty, written-has_row}

halted-step :
    (c : RunConfig) (w : Answers) (n : Node) (s : GenerationState)
    → halted n ≡ true
    → step c w (n, s) ≡ (n, s)
unfolding step
halted-step c w n s h = rw (step, h) refl

pub halted-run :
    (c : RunConfig) (ws : ℕ → Answers) (k : ℕ) (n : Node) (s : GenerationState)
    → halted n ≡ true
    → run c ws k (n, s) ≡ (n, s)
unfolding run
halted-run c ws zero n s h = refl
halted-run c ws (suc k) n s h =
    rw (halted-step c (ws 0) n s h) (halted-run c (λ i. ws (suc i)) k n s h)

-- The state in which a run is not halted falls behind by at least one step.
one_step :
    (c : RunConfig) (w : Answers) (n : Node) (s : GenerationState)
    → halted n ≡ false
    → IsTracked c (n, s)
    → steps_left c (step c w (n, s)) < steps_left c (n, s)
one_step c w n s h t =
    Closer-steps_left c n (step c w (n, s)).0 s (step c w (n, s)).1 (step-advances c w n s h t).0

-- Enough steps end a run that is on its way.
run_ends :
    (c : RunConfig) (ws : ℕ → Answers) (k : ℕ) (n : Node) (s : GenerationState)
    → steps_left c (n, s) ≤ k
    → IsTracked c (n, s)
    → halted (run c ws k (n, s)).0 ≡ true
unfolding run
run_ends c ws zero n s l t = elim (Bool-cases (halted n)) [
  | inl e ↦ e
  | inr e ↦ ground (arith, l, one_step c (ws 0) n s e t)
]
run_ends c ws (suc k) n s l t = elim (Bool-cases (halted n)) [
  | inl e ↦ subst (λ x. halted x.0 ≡ true) (sym (halted-run c ws (suc k) n s e)) e
  | inr e ↦
      run_ends c (λ i. ws (suc i)) k (step c (ws 0) (n, s)).0 (step c (ws 0) (n, s)).1
        (omega (arith, one_step c (ws 0) n s e t)) (step-advances c (ws 0) n s e t).1
]

-- No node raises, and the confirmation of the outline, where it is asked for, comes.
abbrev pub IsCalm : Answers → Type 0
IsCalm w = (w.raises ≡ false) × (w.is_confirmed ≡ true)

step-IsCalm :
    (c : RunConfig) (w : Answers) (n : Node) (s : GenerationState)
    → IsCalm w
    → halted n ≡ false
    → step c w (n, s) ≡ proceed c w (n, s)
step-IsCalm c w n s m h = step-proceeds c w n s h m.0 (unconfirmed n)
  where
    unconfirmed : (x : Node) → awaits_confirmation w x ≡ false
    unconfirmed x = ground (arith, m.1)

run-IsSound :
    (c : RunConfig) (ws : ℕ → Answers) (first k : ℕ) (n : Node) (s : GenerationState)
    → ((i : ℕ) → IsCalm (ws i))
    → IsTracked c (n, s)
    → IsSound first (n, s)
    → IsSound first (run c ws k (n, s))
unfolding run
run-IsSound c ws first zero n s m t h = h
run-IsSound c ws first (suc k) n s m t h = elim (Bool-cases (halted n)) [
  | inl e ↦ subst (IsSound first) (sym (halted-run c ws (suc k) n s e)) h
  | inr e ↦
      run-IsSound c (λ i. ws (suc i)) first k (step c (ws 0) (n, s)).0 (step c (ws 0) (n, s)).1
        (λ i. m (suc i)) (step-advances c (ws 0) n s e t).1
        (subst (IsSound first) (sym (step-IsCalm c (ws 0) n s (m 0) e))
          (proceed-IsSound c (ws 0) first n s t h))
]

-- The state after `node_init`, and the steps that the run takes at the most.
abbrev pub started : (ℕ → Answers) → PipelineArguments → List ChapterVersion → GenerationState
started ws a rows = node_init (ws 0).init_facts (initial_state a rows)

abbrev pub enough_steps : RunConfig → (ℕ → Answers) → PipelineArguments → List ChapterVersion → ℕ
enough_steps c ws a rows = suc (steps_left c (Node.prewrite, started ws a rows))

-- `run_generation_pipeline_langgraph`
abbrev pub pipeline :
    RunConfig → ℕ → (ℕ → Answers) → PipelineArguments → List ChapterVersion → Node × GenerationState
pipeline c recursion_limit ws a rows = invoke c recursion_limit ws (Node.init, initial_state a rows)

pub first_step-raises :
    (c : RunConfig) (ws : ℕ → Answers) (a : PipelineArguments) (rows : List ChapterVersion)
    → (ws 0).raises ≡ true
    → step c (ws 0) (Node.init, initial_state a rows) ≡ (Node.failed, initial_state a rows)
first_step-raises c ws a rows r = step-raises c (ws 0) Node.init (initial_state a rows) refl r

pub first_step-returns :
    (c : RunConfig) (ws : ℕ → Answers) (a : PipelineArguments) (rows : List ChapterVersion)
    → (ws 0).raises ≡ false
    → step c (ws 0) (Node.init, initial_state a rows) ≡ (Node.prewrite, started ws a rows)
unfolding proceed
first_step-returns c ws a rows r =
    step-proceeds c (ws 0) Node.init (initial_state a rows) refl r refl

-- A run of a segment whose `node_init` raises has ended; otherwise it goes on at `prewrite`.
pub run-cases {ℓ} :
    (P : Node × GenerationState → Type ℓ) (c : RunConfig) (ws : ℕ → Answers) (k : ℕ)
    (a : PipelineArguments) (rows : List ChapterVersion)
    → P (Node.failed, initial_state a rows)
    → P (run c (λ i. ws (suc i)) k (Node.prewrite, started ws a rows))
    → P (run c ws (suc k) (Node.init, initial_state a rows))
unfolding run
run-cases P c ws k a rows failed done = elim (Bool-cases (ws 0).raises) [
  | inl r ↦
      subst (λ x. P (run c (λ i. ws (suc i)) k x)) (sym (first_step-raises c ws a rows r))
        (subst P (sym (halted-run c (λ i. ws (suc i)) k Node.failed (initial_state a rows) refl))
          failed)
  | inr r ↦
      subst (λ x. P (run c (λ i. ws (suc i)) k x)) (sym (first_step-returns c ws a rows r)) done
]

pub started-IsTracked :
    (c : RunConfig) (ws : ℕ → Answers) (a : PipelineArguments) (rows : List ChapterVersion)
    → IsTracked c (Node.prewrite, started ws a rows)
unfolding node_init initial_state
started-IsTracked c ws a rows = (refl, refl, tt)

-- Whatever the models answer, within `enough_steps` steps the run of a segment is at the end of the
-- graph, has ended with an exception of a node, or waits for a confirmation of the outline that never
-- comes: the revisions of an outline, the rewrites of a draft, the reruns, the tail rewrites and the
-- bridge chapters all come to an end. A recursion limit below that number may end the run before, with
-- an exception.
pub pipeline_halts :
    (c : RunConfig) (ws : ℕ → Answers) (a : PipelineArguments) (rows : List ChapterVersion)
    (steps : ℕ)
    → enough_steps c ws a rows ≤ steps
    → halted (run c ws steps (Node.init, initial_state a rows)).0 ≡ true
pipeline_halts c ws a rows zero l = absurd (omega (arith, l))
pipeline_halts c ws a rows (suc k) l =
    run-cases (λ x. halted x.0 ≡ true) c ws k a rows refl
      (run_ends c (λ i. ws (suc i)) k Node.prewrite (started ws a rows) (omega (arith, l))
        (started-IsTracked c ws a rows))

started-IsSound :
    (ws : ℕ → Answers) (a : PipelineArguments) (rows : List ChapterVersion)
    → 1 ≤ a.segment_start_chapter
    → a.book_start_chapter ≤ a.segment_start_chapter
    → (ws 0).init_facts.retry_resume_chapter ≤ (started ws a rows).current_chapter
    → IsSound (started ws a rows).current_chapter (Node.prewrite, started ws a rows)
unfolding node_init initial_state retry_write_allowed
started-IsSound ws a rows h g f =
    ground (arith, written-empty (started ws a rows).current_chapter rows)

sound_end :
    (first k : ℕ) (x : Node × GenerationState)
    → halted x.0 ≡ true
    → IsSound first x
    → first ≤ k
    → k ≤ x.1.end_chapter
    → (x.0 ≡ Node.end) × (has_row k x.1.chapters ≡ true)
sound_end first k (n, s) e h l u =
    ground (arith, written-has_row first s.current_chapter k s.chapters)

-- When the segment starts at chapter 1 or later and not before the book, the stored retry floor is not
-- above the chapter that the run resumes at, no node raises, a confirmation of the outline that is asked
-- for comes, and the recursion limit is `enough_steps` at the least: the run reaches the end of the
-- graph, and then every chapter from the resumed one to the last one of the segment, bridge chapters
-- included, has a row, so that no chapter is skipped.
pub segment_complete :
    (c : RunConfig) (recursion_limit : ℕ) (ws : ℕ → Answers) (a : PipelineArguments)
    (rows : List ChapterVersion) (k : ℕ)
    → 1 ≤ a.segment_start_chapter
    → a.book_start_chapter ≤ a.segment_start_chapter
    → (ws 0).init_facts.retry_resume_chapter ≤ (started ws a rows).current_chapter
    → ((i : ℕ) → IsCalm (ws i))
    → enough_steps c ws a rows ≤ recursion_limit
    → (started ws a rows).current_chapter ≤ k
    → k ≤ (pipeline c recursion_limit ws a rows).1.end_chapter
    → ((pipeline c recursion_limit ws a rows).0 ≡ Node.end)
      × (has_row k (pipeline c recursion_limit ws a rows).1.chapters ≡ true)
unfolding run
segment_complete c zero ws a rows k h g f m r l u = ground arith
segment_complete c (suc j) ws a rows k h g f m r l u =
    let s = started ws a rows in
    let x = run c ws (suc j) (Node.init, initial_state a rows) in
    let halts = pipeline_halts c ws a rows (suc j) r in
    let same : pipeline c (suc j) ws a rows ≡ x = rw halts refl in
    subst (λ y. (y.0 ≡ Node.end) × (has_row k y.1.chapters ≡ true)) (sym same)
      (sound_end s.current_chapter k x halts
        (subst (λ y. IsSound s.current_chapter (run c (λ i. ws (suc i)) j y))
          (sym (first_step-returns c ws a rows (m 0).0))
          (run-IsSound c (λ i. ws (suc i)) s.current_chapter j Node.prewrite s (λ i. m (suc i))
            (started-IsTracked c ws a rows) (started-IsSound ws a rows h g f)))
        l (subst (λ y. k ≤ y.1.end_chapter) same u))

run-IsTracked :
    (c : RunConfig) (ws : ℕ → Answers) (k : ℕ) (n : Node) (s : GenerationState)
    → IsTracked c (n, s)
    → IsTracked c (run c ws k (n, s))
unfolding run
run-IsTracked c ws zero n s t = t
run-IsTracked c ws (suc k) n s t = elim (Bool-cases (halted n)) [
  | inl e ↦ subst (IsTracked c) (sym (halted-run c ws (suc k) n s e)) t
  | inr e ↦
      run-IsTracked c (λ i. ws (suc i)) k (step c (ws 0) (n, s)).0 (step c (ws 0) (n, s)).1
        (step-advances c (ws 0) n s e t).1
]

Entered-writing :
    (c : RunConfig) (x : Node × GenerationState)
    → IsTracked c x
    → (x.0 ≢ Node.final_book_review) × (x.0 ≢ Node.quality_rewrite_init)
Entered-writing c (n, s) t = ground arith

-- No run of a segment visits the final review of the book or the rewrite of a blocked chapter,
-- however many steps it takes.
pub final_review_unreached :
    (c : RunConfig) (ws : ℕ → Answers) (a : PipelineArguments) (rows : List ChapterVersion) (k : ℕ)
    → let n = (run c ws k (Node.init, initial_state a rows)).0 in
      (n ≢ Node.final_book_review) × (n ≢ Node.quality_rewrite_init)
unfolding run
final_review_unreached c ws a rows zero = ground arith
final_review_unreached c ws a rows (suc k) =
    run-cases (λ x. (x.0 ≢ Node.final_book_review) × (x.0 ≢ Node.quality_rewrite_init)) c ws k a
      rows (ground arith, ground arith)
      (Entered-writing c (run c (λ i. ws (suc i)) k (Node.prewrite, started ws a rows)) (
        run-IsTracked c (λ i. ws (suc i)) k Node.prewrite (started ws a rows)
          (started-IsTracked c ws a rows)))
