-- ===== src/Storyboards/Waiting.antt =====
-- A project whose status is not "preflight_passed" stays so, whatever is done to its runs.
use ai_jin_shu.Common.{
  ℕ, ◌≡◌, refl, ap, ◌∙◌, subst, Bool, true, false, not, Option, none, some, String, List, [], ◌∷◌,
  arith, str_eq, ◌==◌, Bool-cases, Option-cases, ◌⊎◌, inl, inr, ok, Result-cases, ok-injective,
}
use ai_jin_shu.Common.Table.{find, put}
use ai_jin_shu.Storyboards.{
  RunState, is_paused, is_cancelled, completed, failed, cancelled, queued, submitted, dispatching,
  running, retrying, paused, StoryboardProject, StoryboardRun, StoryboardRunLane, Studio,
  get_project, get_run, list_run_lanes, save_run, LaneChange, update_run_lane_state,
}
use ai_jin_shu.Storyboards.Status.{
  follow_project, refresh_lanes, refresh_run_status, preferred, aggregate, refreshed_run,
}
use ai_jin_shu.Storyboards.Runs.{RunRequest, add_lane, add_lanes}
use ai_jin_shu.Storyboards.Actions.{
  Actor, RunAction, lane_after, cancelled_run, pause, resume, cancel, act_on_lane, act_on_lanes,
  task_action, pause_run, resume_run, cancel_run, cancel_project,
}

abbrev pub is_waiting : Option StoryboardProject → Bool
is_waiting none = false
is_waiting (some p) = not (str_eq p.status "preflight_passed")

-- The project is there, and has not passed its preflight.
abbrev pub IsWaiting : ℕ → Studio → Type 0
IsWaiting i s = is_waiting (get_project i s) ≡ true

pub put-IsWaiting :
    (i : ℕ) (q : StoryboardProject) (ps : List StoryboardProject)
    → (q.id == i) ≡ false ⊎ (is_waiting (some q) ≡ true)
    → is_waiting (find (λ p. p.id == i) ps) ≡ true
    → is_waiting (find (λ p. p.id == i) (put (λ p. p.id == q.id) q ps)) ≡ true
put-IsWaiting i q [] o h = h
put-IsWaiting i q (p ∷ ps) (inl o) h = ground (arith, put-IsWaiting i q ps (inl o))
put-IsWaiting i q (p ∷ ps) (inr o) h = ground (arith, put-IsWaiting i q ps (inr o))

pub keeps-IsWaiting :
    (i : ℕ) (s s' : Studio) → s.projects ≡ s'.projects → IsWaiting i s → IsWaiting i s'
keeps-IsWaiting i s s' e h = subst (λ ps. is_waiting (find (λ p. p.id == i) ps) ≡ true) e h

pub update-projects :
    (now i : ℕ) (c : LaneChange) (s : Studio)
    → s.projects ≡ (update_run_lane_state now i c s).projects
unfolding update_run_lane_state
update-projects now i c s = elim (Option-cases (find (λ l. l.id == i) s.lanes)) [
  | inl e ↦ rw (e, update_run_lane_state) refl
  | inr (l, e) ↦ rw (e, update_run_lane_state) refl
]

act_on_lane-projects :
    (a : Actor) (c : RunAction) (l : StoryboardRunLane) (s : Studio)
    → s.projects ≡ (act_on_lane a c l s).1.projects
unfolding act_on_lane
act_on_lane-projects a c l s = elim (Option-cases l.creation_task_public_id) [
  | inl e ↦ rw e refl
  | inr (task, e) ↦ rw e (elim (Bool-cases (str_eq task "")) [
    | inl f ↦ rw f refl
    | inr f ↦ rw f (elim (Result-cases (task_action a c task s.scheduler)) [
      | inl ((t, db), g) ↦
          rw g (update-projects a.now l.id (lane_after c l.lane) (record s { scheduler = db }))
      | inr (x, g) ↦ rw g refl
    ])
  ])
]

act_on_lanes-projects :
    (a : Actor) (c : RunAction) (ls : List StoryboardRunLane) (s : Studio)
    → s.projects ≡ (act_on_lanes a c ls s).1.projects
unfolding act_on_lanes
act_on_lanes-projects a c [] s = refl
act_on_lanes-projects a c (l ∷ ls) s =
    act_on_lane-projects a c l s ∙ act_on_lanes-projects a c ls (act_on_lane a c l s).1

pub add_lanes-projects :
    (q : RunRequest) (r : StoryboardRun) (source : ℕ) (lanes : List String) (s : Studio)
    → s.projects ≡ (add_lanes q r source lanes s).projects
unfolding add_lanes add_lane
add_lanes-projects q r source [] s = refl
add_lanes-projects q r source (lane ∷ lanes) s =
    add_lanes-projects q r source lanes (add_lane q r source lane s)

follow-IsWaiting :
    (i : ℕ) (x : RunState) (best : StoryboardRunLane) (o : Option StoryboardProject) (s : Studio)
    → IsWaiting i s
    → IsWaiting i (follow_project x best o s)
follow-IsWaiting i x best none s h = h
follow-IsWaiting i completed best (some p) s h =
    put-IsWaiting i (record p { status = "reviewing"; active_lane = best.lane }) s.projects
      (inr refl) h
follow-IsWaiting i failed best (some p) s h =
    put-IsWaiting i (record p { status = "failed" }) s.projects (inr refl) h
follow-IsWaiting i cancelled best (some p) s h =
    put-IsWaiting i (record p { status = "cancelled" }) s.projects (inr refl) h
follow-IsWaiting i queued best (some p) s h = h
follow-IsWaiting i submitted best (some p) s h = h
follow-IsWaiting i dispatching best (some p) s h = h
follow-IsWaiting i running best (some p) s h = h
follow-IsWaiting i retrying best (some p) s h = h
follow-IsWaiting i paused best (some p) s h = h

pub refresh-IsWaiting :
    (i now r : ℕ) (s : Studio) → IsWaiting i s → IsWaiting i (refresh_run_status now r s)
unfolding refresh_run_status
refresh-IsWaiting i now r s h = elim (Option-cases (get_run r s)) [
  | inl e ↦ rw (e, refresh_run_status) h
  | inr (run, e) ↦ rw (e, refresh_run_status) (lanes-IsWaiting run (list_run_lanes r s))
]
  where
    lanes-IsWaiting :
        (run : StoryboardRun) (ls : List StoryboardRunLane)
        → IsWaiting i (refresh_lanes now run ls s)
    lanes-IsWaiting run [] = h
    lanes-IsWaiting run (l ∷ ls) =
        follow-IsWaiting i (aggregate (l ∷ ls)) (preferred l ls)
          (get_project run.storyboard_project_id s) (save_run (refreshed_run now (l ∷ ls) run) s) h

cancel_project-IsWaiting :
    (i : ℕ) (o : Option StoryboardProject) (s : Studio)
    → IsWaiting i s
    → IsWaiting i (cancel_project o s)
cancel_project-IsWaiting i none s h = h
cancel_project-IsWaiting i (some p) s h =
    put-IsWaiting i (record p { status = "cancelled" }) s.projects (inr refl) h

pub pause-IsWaiting :
    (i : ℕ) (a : Actor) (r : StoryboardRun) (ls : List StoryboardRunLane) (s : Studio)
    → IsWaiting i s
    → IsWaiting i (pause_run a r ls s)
unfolding pause_run
pause-IsWaiting i a r ls s h = elim (Bool-cases (is_paused r.run_state)) [
  | inl e ↦ rw e h
  | inr e ↦
      rw e
        (keeps-IsWaiting i s (act_on_lanes a pause ls s).1 (act_on_lanes-projects a pause ls s) h)
]

pub cancel-IsWaiting :
    (i : ℕ) (a : Actor) (r : StoryboardRun) (ls : List StoryboardRunLane) (s : Studio)
    → IsWaiting i s
    → IsWaiting i (cancel_run a r ls s)
unfolding cancel_run
cancel-IsWaiting i a r ls s h = elim (Bool-cases (is_cancelled r.run_state)) [
  | inl e ↦ rw e h
  | inr e ↦ rw e (
      let last = save_run (cancelled_run a.now r) (act_on_lanes a cancel ls s).1 in
      cancel_project-IsWaiting i (get_project r.storyboard_project_id last) last (
        keeps-IsWaiting i s (act_on_lanes a cancel ls s).1 (act_on_lanes-projects a cancel ls s) h))
]

pub resume-IsWaiting :
    (i : ℕ) (a : Actor) (r : StoryboardRun) (ls : List StoryboardRunLane) (s s' : Studio)
    → resume_run a r ls s ≡ ok s'
    → IsWaiting i s
    → IsWaiting i s'
unfolding resume_run
resume-IsWaiting i a r ls s s' k h = elim (Bool-cases ((act_on_lanes a resume ls s).0 == 0)) [
  | inl e ↦ absurd (let x = rw e at k in cc)
  | inr e ↦
      keeps-IsWaiting i s s'
        (act_on_lanes-projects a resume ls s ∙ ap (λ x. x.projects) (ok-injective _ _ (rw e at k)))
        h
]
