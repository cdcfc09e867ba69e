-- ===== src/Storyboards/Submitted.antt =====
-- What `create_run_and_dispatch` of app/services/storyboard/runtime_v2.py hands to the scheduler.
use mathlib.Core.List.{append_assoc, append-nil}
use ai_jin_shu.Common.{
  ℕ, suc, ◌≡◌, refl, sym, ap, ◌∙◌, subst, true, some, String, List, [], ◌∷◌, ◌++◌, map, arith, ◌==◌,
  All, any, length, ltb, Bool-cases, inl, inr, ok, ok-injective,
}
use ai_jin_shu.Common.Int.{pos}
use ai_jin_shu.Common.Table.{find, put}
use ai_jin_shu.Json.{Numerals}
use ai_jin_shu.Tasks.{CreationTask}
use ai_jin_shu.Scheduler.Store.{Project}
use ai_jin_shu.Scheduler.Operations.{submit_task}
use ai_jin_shu.Scheduler.Payload.{project_with, row_in, prepare_lane}
use ai_jin_shu.Storyboards.{StoryboardProject, StoryboardRun, Studio, get_project}
use ai_jin_shu.Storyboards.Runs.{
  RunRequest, new_run, add_lane, add_lanes, started_run, create_new_run, first_lane, is_active_of,
}
use ai_jin_shu.Storyboards.Lanes.{ensure_project_source_version, normalize_lanes}
use ai_jin_shu.Storyboards.Waiting.{add_lanes-projects}
use ai_jin_shu.Storyboards.Placed.{project_view, run_view, boards_of, scheduler_view}
use ai_jin_shu.Storyboards.Dispatchable.{
  VersionsBelow, IsReady, lane_tasks, add_lanes-IsDispatchable, find-some,
}

find-project_view :
    (py : Numerals) (i : ℕ) (p : StoryboardProject) (ps : List StoryboardProject)
    → find (λ x. x.id == i) ps ≡ some p
    → find (project_with py (pos i)) (map project_view ps) ≡ some (project_view p)
find-project_view py i p [] h = ground arith
find-project_view py i p (x ∷ xs) h = elim (Bool-cases (x.id == i)) [
  | inl e ↦ let same : x ≡ p = ground arith in rw e (ap (λ y. some (project_view y)) same)
  | inr e ↦ rw e (find-project_view py i p xs (rw e at h))
]

-- A write that keeps the id and the novel of a project does not show.
view-put :
    (p p' : StoryboardProject) (ps : List StoryboardProject)
    → project_view p' ≡ project_view p
    → p'.id ≡ p.id
    → find (λ x. x.id == p.id) ps ≡ some p
    → map project_view (put (λ x. x.id == p.id) p' ps) ≡ map project_view ps
view-put p p' [] v e h = refl
view-put p p' (x ∷ xs) v e h = elim (Bool-cases (x.id == p.id)) [
  | inl q ↦
      let same : x ≡ p = ground arith in
      rw q (ap (λ y. y ∷ map project_view xs) (v ∙ ap project_view (sym same)))
  | inr q ↦ rw q (ap (λ ys. project_view x ∷ ys) (view-put p p' xs v e (rw q at h)))
]

module _ (py : Numerals) (q : RunRequest) (r : StoryboardRun) (source : ℕ) where
  add_lanes-tasks :
      (lanes : List String) (s : Studio)
      → (add_lanes q r source lanes s).scheduler.tasks
        ≡ s.scheduler.tasks ++ lane_tasks py q r source lanes s
  unfolding add_lanes add_lane submit_task
  add_lanes-tasks [] s = sym (append-nil s.scheduler.tasks)
  add_lanes-tasks (lane ∷ lanes) s =
      add_lanes-tasks lanes (add_lane q r source lane s) ∙ append_assoc s.scheduler.tasks (_ ∷ []) _

  length-lane_tasks :
      (lanes : List String) (s : Studio) → length (lane_tasks py q r source lanes s) ≡ length lanes
  length-lane_tasks [] s = refl
  length-lane_tasks (lane ∷ lanes) s =
      omega (arith, length-lane_tasks lanes (add_lane q r source lane s))

module _ (py : Numerals) (strip : String → String) (q : RunRequest) (p : StoryboardProject)
    (s : Studio) (r : StoryboardRun) (s' : Studio) (novel : Project)
    (found : get_project p.id s ≡ some p) (set : ltb 0 p.source_novel_version_id ≡ true)
    (version : find (project_with py (pos p.source_novel_version_id)) (boards_of s).novel_versions
      ≡ some novel)
    (same_novel : novel.novel_id ≡ pos p.novel_id)
    (below : VersionsBelow s.next_version s.versions) where
  abbrev run_added : Studio
  run_added = record s { runs = s.runs ++ new_run q p s ∷ []; next_run = suc s.next_run }

  ready : IsReady py (new_run q p s) p.source_novel_version_id run_added
  ready =
      let row =
        find-some run_view (row_in py (pos s.next_run) (pos p.id)) (new_run q p s) s.runs
          (ground arith) in
      record {
        project = project_view p;
        project_found = find-project_view py p.id p s.projects found;
        run = row.0;
        run_found = row.1;
        novel = novel;
        novel_found = version;
        same_novel = same_novel;
        below = below;
      }

  abbrev lanes_added : Studio
  lanes_added =
      add_lanes q (new_run q p s) p.source_novel_version_id (normalize_lanes strip p.output_lanes)
        run_added

  -- The project as the run leaves it.
  abbrev generating : StoryboardProject
  generating = record p {
    status = "generating";
    active_lane = first_lane (normalize_lanes strip p.output_lanes) p.active_lane;
  }

  found_still : find (λ x. x.id == p.id) lanes_added.projects ≡ some p
  found_still =
      subst (λ ps. find (λ x. x.id == p.id) ps ≡ some p)
        (add_lanes-projects q (new_run q p s) p.source_novel_version_id
          (normalize_lanes strip p.output_lanes) run_added)
        found

  same_view :
      scheduler_view lanes_added
      ≡ scheduler_view (started_run strip q p p.source_novel_version_id s)
  same_view =
      ap
        (λ ps. record (scheduler_view lanes_added) {
          boards = record (boards_of lanes_added) { projects = ps };
        })
        (sym (view-put p generating lanes_added.projects refl refl found_still))

  -- One task for each lane, all of which the scheduler takes.
  abbrev pub Submits : Studio → Type 0
  Submits t =
      (new : List CreationTask) × (t.scheduler.tasks ≡ s.scheduler.tasks ++ new)
      × (length new ≡ length (normalize_lanes strip p.output_lanes))
      × All (λ x. prepare_lane py x (scheduler_view t) ≡ ok tt) new

  started-Submits : Submits (started_run strip q p p.source_novel_version_id s)
  started-Submits =
      let lanes = normalize_lanes strip p.output_lanes in
      let new = lane_tasks py q (new_run q p s) p.source_novel_version_id lanes run_added in
      (
        new,
        add_lanes-tasks py q (new_run q p s) p.source_novel_version_id lanes run_added,
        length-lane_tasks py q (new_run q p s) p.source_novel_version_id lanes run_added,
        subst (λ v. All (λ x. prepare_lane py x v ≡ ok tt) new) same_view
            (add_lanes-IsDispatchable py q (new_run q p s) p.source_novel_version_id lanes run_added
              ready),
      )

  -- A run that is created submits one task for each of the project's lanes, and each of them passes
  -- the checks that the scheduler makes before it publishes a task. The project has its source
  -- version, which is a version of its novel.
  pub create-IsDispatchable : create_new_run strip q p s ≡ ok (r, s') → Submits s'
  unfolding create_new_run ensure_project_source_version
  create-IsDispatchable k = elim (Bool-cases (any (is_active_of p.id) s.runs)) [
    | inl e ↦ absurd (let x = rw e at k in cc)
    | inr e ↦
        let ended : started_run strip q p p.source_novel_version_id s ≡ s' =
          ap (λ x. x.1) (ok-injective _ _ (rw set at (rw e at k))) in
        subst Submits ended started-Submits
  ]
