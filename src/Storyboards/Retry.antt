-- ===== src/Storyboards/Retry.antt =====
-- A run that was started once is not started again: neither by the same request, with its key against
-- repeats, nor by the action `retry` of api/routes/storyboards.py.
use ai_jin_shu.Common.{
  ℕ, ◌≡◌, subst, not, ◌&&◌, some, String, Bool-cases, inl, inr, ok, err, ok-injective,
}
use ai_jin_shu.Storyboards.{
  StoryboardProject, StoryboardRun, Studio, get_project, LaneChange, update_run_lane_state,
  list_run_lanes, is_over,
}
use ai_jin_shu.Storyboards.Status.{refresh_run_status}
use ai_jin_shu.Storyboards.Runs.{RunRequest, create_new_run, start_run}
use ai_jin_shu.Storyboards.Lanes.{unsupported_action, preflight_required}
use ai_jin_shu.Storyboards.Actions.{
  Actor, RunAction, pause, resume, cancel, unsupported, is_cancel, run_action, pause_run,
  resume_run, cancel_run,
}
use ai_jin_shu.Storyboards.Waiting.{
  IsWaiting, keeps-IsWaiting, update-projects, refresh-IsWaiting, pause-IsWaiting, resume-IsWaiting,
  cancel-IsWaiting,
}
use ai_jin_shu.Storyboards.Created.{waiting-refused, create-IsWaiting, start-IsWaiting}

action-IsWaiting :
    (i : ℕ) (a : Actor) (c : RunAction) (r : StoryboardRun) (s s' : Studio)
    → run_action a c r s ≡ ok s'
    → IsWaiting i s
    → IsWaiting i s'
unfolding run_action
action-IsWaiting i a c r s s' k h = elim (Bool-cases (is_over r.run_state && not (is_cancel c))) [
  | inl e ↦ absurd (let x = rw e at k in cc)
  | inr e ↦ go c (rw e at k)
]
  where
    go :
        (d : RunAction)
        → (elim d [
          | pause ↦ ok (pause_run a r (list_run_lanes r.id s) s)
          | resume ↦ resume_run a r (list_run_lanes r.id s) s
          | cancel ↦ ok (cancel_run a r (list_run_lanes r.id s) s)
          | unsupported x ↦ err unsupported_action
        ])
          ≡ ok s'
        → IsWaiting i s'
    go pause e =
        subst (IsWaiting i) (ok-injective _ _ e) (pause-IsWaiting i a r (list_run_lanes r.id s) s h)
    go resume e = resume-IsWaiting i a r (list_run_lanes r.id s) s s' e h
    go cancel e =
        subst (IsWaiting i) (ok-injective _ _ e)
          (cancel-IsWaiting i a r (list_run_lanes r.id s) s h)
    go (unsupported x) e = cc

-- What may be done to the runs after a run was created, the preflight of the project apart.
pub data Later (strip : String → String) (s : Studio) : Studio → Type 0 where
  at_once : Later strip s s
  queried : {t : Studio} (now r : ℕ) → Later strip s t → Later strip s (refresh_run_status now r t)
  reported :
      {t : Studio} (now l : ℕ) (c : LaneChange)
      → Later strip s t
      → Later strip s (update_run_lane_state now l c t)
  acted :
      {t : Studio} (a : Actor) (c : RunAction) (r : StoryboardRun) (u : Studio)
      → Later strip s t
      → run_action a c r t ≡ ok u
      → Later strip s u
  started :
      {t : Studio} (q : RunRequest) (j : ℕ) (r : StoryboardRun) (u : Studio)
      → Later strip s t
      → start_run strip q j t ≡ ok (r, u)
      → Later strip s u

later-IsWaiting :
    (strip : String → String) (i : ℕ) {s t : Studio}
    → Later strip s t
    → IsWaiting i s
    → IsWaiting i t
later-IsWaiting strip i at_once h = h
later-IsWaiting strip i (queried {t} now r l) h =
    refresh-IsWaiting i now r t (later-IsWaiting strip i l h)
later-IsWaiting strip i (reported {t} now k c l) h =
    keeps-IsWaiting i t (update_run_lane_state now k c t) (update-projects now k c t)
      (later-IsWaiting strip i l h)
later-IsWaiting strip i (acted {t} a c r u l e) h =
    action-IsWaiting i a c r t u e (later-IsWaiting strip i l h)
later-IsWaiting strip i (started {t} q j r u l e) h =
    start-IsWaiting strip q i j t r u e (later-IsWaiting strip i l h)

-- After a run of a project was created, every later request for a run of it is refused with
-- "preflight_required" until the preflight is made again: a repeat with the same key, and the retry
-- of a run that is over, whatever its lanes reported and whichever actions were taken in between.
pub restart-refused :
    (strip : String → String) (q : RunRequest) (p : StoryboardProject) (s : Studio)
    (r : StoryboardRun) (s' t : Studio) (again : RunRequest)
    → get_project p.id s ≡ some p
    → create_new_run strip q p s ≡ ok (r, s')
    → Later strip s' t
    → start_run strip again p.id t ≡ err preflight_required
restart-refused strip q p s r s' t again h k l =
    waiting-refused strip again p.id t
      (later-IsWaiting strip p.id l (create-IsWaiting strip q p s r s' k h))
