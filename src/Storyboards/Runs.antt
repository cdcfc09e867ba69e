-- ===== src/Storyboards/Runs.antt =====
-- `create_run_and_dispatch` of app/services/storyboard/runtime_v2.py, and the route that calls it. `strip` is
-- Python's method of texts.
use ai_jin_shu.Common.{
  ℕ, suc, Bool, false, not, ◌&&◌, Option, none, some, String, List, [], ◌∷◌, ◌++◌, ◌==◌, str_eq,
  any, if◌then◌else◌, Result, ok, err, ◌>>=◌,
}
use ai_jin_shu.Common.Int.{pos}
use ai_jin_shu.Json.{num, text, Fields, end, field}
use ai_jin_shu.Scheduler.Operations.{Submission, submit_task}
use ai_jin_shu.Storyboards.{
  submitted, running, StoryboardProject, StoryboardRun, StoryboardRunLane, event, audit, Studio,
  is_active, get_project, save_project, logged,
}
use ai_jin_shu.Storyboards.Lanes.{
  RunError, ensure_project_source_version, lane_version, normalize_lanes, preflight_required,
  project_not_found, run_already_active, submitted_message,
}

-- What a request brings: the actor, the trace, the key against repeats, and the values that the
-- columns' defaults draw, the run's public id and that of the task of each lane.
pub record RunRequest : Type 0 where
  pub actor_user_uuid : String
  pub trace_id : Option String
  pub idempotency_key : Option String
  pub run_public_id : String
  pub task_public_id : ℕ → String
  pub now : ℕ

abbrev pub new_run : RunRequest → StoryboardProject → Studio → StoryboardRun
new_run q p s = record {
  id = s.next_run;
  public_id = q.run_public_id;
  storyboard_project_id = p.id;
  requested_by_user_uuid = q.actor_user_uuid;
  status = running;
  run_state = running;
  current_phase = "lane_dispatch";
  progress = 1000000;
  message = "双 Lane 任务已提交";
  idempotency_key = q.idempotency_key;
  trace_id = q.trace_id;
  started_at = q.now;
  finished_at = none;
  updated_at = q.now;
}

abbrev pub lane_payload : StoryboardRun → ℕ → String → ℕ → ℕ → Fields
lane_payload r lane_id lane version source =
    field "project_id" (num (pos r.storyboard_project_id)) (
      field "run_id" (num (pos r.id)) (
        field "run_public_id" (text r.public_id) (
          field "run_lane_id" (num (pos lane_id)) (
            field "lane" (text lane) (
              field "version_id" (num (pos version))
                (field "novel_version_id" (num (pos source)) end))))))

abbrev pub lane_submission : RunRequest → StoryboardRun → ℕ → String → ℕ → ℕ → Submission
lane_submission q r lane_id lane version source = record {
  public_id = q.task_public_id lane_id;
  user_uuid = q.actor_user_uuid;
  task_type = "storyboard_lane";
  resource_type = "storyboard_project";
  resource_id = r.storyboard_project_id;
  payload = some (lane_payload r lane_id lane version source);
  priority = pos 100;
  max_retries = pos 3;
}

-- The row of a lane once its task is submitted.
abbrev pub new_lane : RunRequest → StoryboardRun → ℕ → String → ℕ → StoryboardRunLane
new_lane q r i lane version = record {
  id = i;
  storyboard_run_id = r.id;
  storyboard_project_id = r.storyboard_project_id;
  lane = lane;
  storyboard_version_id = version;
  creation_task_public_id = some (q.task_public_id i);
  status = submitted;
  run_state = submitted;
  current_phase = "submitted";
  progress = 0;
  message = submitted_message lane;
  error = none;
  error_code = none;
  error_category = none;
  gate_report_json = none;
  started_at = q.now;
  finished_at = none;
  updated_at = q.now;
}

-- One turn of the loop over the lanes: a version, a row and a task.
unfoldable pub add_lane : RunRequest → StoryboardRun → ℕ → String → Studio → Studio
unfolding submit_task
add_lane q r source lane s =
    let version = lane_version r.storyboard_project_id source lane s in
    let submission = lane_submission q r s.next_lane lane version.id source in
    record s {
      versions = s.versions ++ version ∷ [];
      next_version = suc s.next_version;
      lanes = s.lanes ++ new_lane q r s.next_lane lane version.id ∷ [];
      next_lane = suc s.next_lane;
      scheduler = (submit_task q.now submission s.scheduler).1;
    }

unfoldable pub add_lanes : RunRequest → StoryboardRun → ℕ → List String → Studio → Studio
unfolding add_lane
add_lanes q r source [] s = s
add_lanes q r source (lane ∷ lanes) s = add_lanes q r source lanes (add_lane q r source lane s)

abbrev pub first_lane : List String → String → String
first_lane [] active = active
first_lane (lane ∷ lanes) active = lane

-- The writes of `create_run_and_dispatch` after its checks; the run's row is the one that it ends with.
abbrev pub started_run : (String → String) → RunRequest → StoryboardProject → ℕ → Studio → Studio
started_run strip q p source s =
    let r = new_run q p s in
    let lanes = normalize_lanes strip p.output_lanes in
    let with_run = record s { runs = s.runs ++ r ∷ []; next_run = suc s.next_run } in
    let project = record p {
      source_novel_version_id = source;
      status = "generating";
      active_lane = first_lane lanes p.active_lane;
    } in
    logged (event p.id r.id "storyboard.run" ∷ audit p.id r.id "run_start" q.actor_user_uuid ∷ [])
      (save_project project (add_lanes q r source lanes with_run))

abbrev pub has_key : ℕ → String → StoryboardRun → Bool
has_key project key r =
    (r.storyboard_project_id == project)
    && (elim r.idempotency_key [ none ↦ false | some k ↦ str_eq k key ])

-- The last run of the project that was asked for with the key.
abbrev pub latest_with : ℕ → String → List StoryboardRun → Option StoryboardRun
latest_with project key [] = none
latest_with project key (r ∷ rs) = elim (latest_with project key rs) [
  | some k ↦ some k
  | none ↦ if has_key project key r then some r else none
]

-- `if idempotency_key:` and the query under it
abbrev pub repeated : ℕ → Option String → Studio → Option StoryboardRun
repeated project none s = none
repeated project (some key) s = if str_eq key "" then none else latest_with project key s.runs

abbrev pub is_active_of : ℕ → StoryboardRun → Bool
is_active_of project r = (r.storyboard_project_id == project) && is_active r.status

-- The rest of `create_run_and_dispatch` when no run was asked for with the key.
unfoldable pub create_new_run :
    (String → String)
    → RunRequest
    → StoryboardProject
    → Studio
    → Result RunError (StoryboardRun × Studio)
unfolding ensure_project_source_version
create_new_run strip q p s =
    if any (is_active_of p.id) s.runs
    then err run_already_active
    else ensure_project_source_version p s >>= λ r.
        ok (new_run q p r.1, started_run strip q p r.0 r.1)

-- `create_run_and_dispatch`: the run, and the tables.
unfoldable pub create_run_and_dispatch :
    (String → String)
    → RunRequest
    → StoryboardProject
    → Studio
    → Result RunError (StoryboardRun × Studio)
unfolding create_new_run
create_run_and_dispatch strip q p s =
    if not (str_eq p.status "preflight_passed")
    then err preflight_required
    else elim (repeated p.id q.idempotency_key s) [
      | some r ↦ ok (r, s)
      | none ↦ create_new_run strip q p s
    ]

-- The request of a run: `start_storyboard_run`, and the action `retry` on a run that is over, of
-- api/routes/storyboards.py.
unfoldable pub start_run :
    (String → String) → RunRequest → ℕ → Studio → Result RunError (StoryboardRun × Studio)
unfolding create_run_and_dispatch
start_run strip q project s = elim (get_project project s) [
  | none ↦ err project_not_found
  | some p ↦ create_run_and_dispatch strip q p s
]
