-- ===== src/Tests/Drawing.antt =====
-- Runs of the storyboard runs and of the versions of a novel.
use mathlib.Core.Option as Option
use ai_jin_shu.Common.{
  All, ◌≡◌, refl, true, false, none, some, String, [], ◌∷◌, length, subst, ok, err,
}
use ai_jin_shu.Common.Int.{pos}
use ai_jin_shu.Versions.{
  Library, ensure_default_version, activate_version, create_target_version, first_version,
  target_version,
}
use ai_jin_shu.Versions.Default.{
  Reach, start, ensured, activated, targeted, OneDefault, Reach-OneDefault,
}
use ai_jin_shu.Versions.Activation.{activate-ensure}
use ai_jin_shu.Scheduler.Store.{get_task_by_public_id}
use ai_jin_shu.Storyboards.{
  running, completed, cancelled, StoryboardProject, StoryboardRun, StoryboardRunLane, Studio,
  get_run, list_run_lanes,
}
use ai_jin_shu.Storyboards.Status.{refresh_run_status}
use ai_jin_shu.Storyboards.Runs.{
  RunRequest, new_run, new_lane, add_lanes, started_run, create_new_run, start_run,
}
use ai_jin_shu.Storyboards.Lanes.{preflight_required, normalize_lanes}
use ai_jin_shu.Storyboards.Actions.{Actor, cancel, run_action}
use ai_jin_shu.Storyboards.Retry.{at_once, queried, restart-refused}
use ai_jin_shu.Storyboards.Revival.{refresh-revives}
use ai_jin_shu.Storyboards.Cancellation.{IsOff, IsOverLane, cancel-over_lane}
use ai_jin_shu.Storyboards.Submitted.{Submits, create-IsDispatchable}
use ai_jin_shu.Tests.Data.{py, db, done, says}

-- A novel with a first version, a second one that a rewrite makes, and the second activated.
abbrev blank : Library
blank = record { versions = []; next_version = 0; chapters = []; next_chapter = 0 }

abbrev one_version : Library
one_version = record blank { versions = first_version 7 0 ∷ []; next_version = 1 }

abbrev two_versions : Library
two_versions = record one_version {
  versions = first_version 7 0 ∷ target_version 7 (first_version 7 0) one_version ∷ [];
  next_version = 2;
}

abbrev second_active : Library
second_active = record two_versions {
  versions =
      record (first_version 7 0) { is_default = false }
      ∷ record (target_version 7 (first_version 7 0) one_version) { is_default = true }
      ∷ [];
}

made_first : ensure_default_version 7 blank ≡ ok (first_version 7 0, one_version)
unfolding ensure_default_version
made_first = refl

made_second : (create_target_version 7 (first_version 7 0) 1 one_version).1 ≡ two_versions
unfolding create_target_version
made_second = refl

made_active :
    activate_version 7 1 two_versions
    ≡ ok (
      record (target_version 7 (first_version 7 0) one_version) { is_default = true },
      second_active,
    )
unfolding activate_version
made_active = refl

Reach-two_versions : Reach two_versions
Reach-two_versions = subst Reach made_second (
    targeted 7 1 (first_version 7 0)
      (ensured 7 (first_version 7 0) one_version (start [] 0) made_first))

Reach-OneDefault_example : OneDefault 7 second_active
Reach-OneDefault_example =
    Reach-OneDefault (activated 7 1 _ second_active Reach-two_versions made_active) 7

activate-ensure_example :
    ensure_default_version 7 second_active
    ≡ ok (
      record (target_version 7 (first_version 7 0) one_version) { is_default = true },
      second_active,
    )
activate-ensure_example = activate-ensure 7 1 _ second_active Reach-two_versions made_active

-- A project that passed its preflight, with the second version of the novel as its source.
abbrev project : StoryboardProject
project = record {
  id = 5;
  novel_id = 7;
  source_novel_version_id = 1;
  status = "preflight_passed";
  output_lanes = some ("vertical_feed" ∷ []);
  active_lane = "";
}

abbrev studio : Studio
studio = record {
  scheduler = record db { tasks = done ∷ [] };
  library = second_active;
  projects = project ∷ [];
  runs = [];
  lanes = [];
  versions = [];
  next_run = 1;
  next_lane = 1;
  next_version = 1;
  log = [];
}

abbrev request : RunRequest
request = record {
  actor_user_uuid = "u1";
  trace_id = none;
  idempotency_key = some "k";
  run_public_id = "run";
  task_public_id = λ i. "task";
  now = 10;
}

abbrev same_text : String → String
same_text t = t

abbrev run_one : StoryboardRun
run_one = new_run request project studio

abbrev with_run : Studio
with_run = started_run same_text request project 1 studio

made_run : create_new_run same_text request project studio ≡ ok (run_one, with_run)
unfolding create_new_run
made_run = refl

two_lanes : length (list_run_lanes 1 with_run) ≡ 2
unfolding normalize_lanes add_lanes
two_lanes = refl

-- The request is repeated after a query for the status of the run.
restart-refused_example :
    start_run same_text request 5 (refresh_run_status 20 1 with_run) ≡ err preflight_required
restart-refused_example =
    restart-refused same_text request project studio run_one with_run
      (refresh_run_status 20 1 with_run) request refl made_run (queried 20 1 at_once)

create-IsDispatchable_example :
    Submits py same_text request project studio run_one with_run
      (record { id = pos 1; novel_id = pos 7 })
      refl
      refl
      refl
      refl
      tt
      with_run
create-IsDispatchable_example =
    create-IsDispatchable py same_text request project studio run_one with_run
      (record { id = pos 1; novel_id = pos 7 }) refl refl refl refl tt made_run

-- A run that was cancelled, one of whose lanes had completed before.
abbrev finished_lane : StoryboardRunLane
finished_lane = record (new_lane request run_one 1 "vertical_feed" 1) {
  status = completed;
  creation_task_public_id = some "p";
}

abbrev mixed : Studio
mixed = record studio {
  runs = record run_one { status = cancelled; run_state = cancelled } ∷ [];
  lanes =
      finished_lane
      ∷ record (new_lane request run_one 2 "horizontal_cinematic" 2) { status = cancelled }
      ∷ [];
}

refresh-revives_example :
    Option.map (λ x. x.status) (get_run 1 (refresh_run_status 20 1 mixed)) ≡ some running
refresh-revives_example =
    refresh-revives 20 1 mixed (record run_one { status = cancelled; run_state = cancelled }) refl
      refl refl refl

abbrev canceller : Actor
canceller = record { user_uuid = "u1"; now = 30; py = py; resume_message = says }

abbrev over_studio : Studio
over_studio = record studio {
  runs = run_one ∷ [];
  lanes = finished_lane ∷ [];
  scheduler = record db { tasks = done ∷ [] };
}

done_found : get_task_by_public_id (record db { tasks = done ∷ [] }) "p" (some "u1") ≡ some done
unfolding get_task_by_public_id
done_found = refl

over_lane :
    (k : StoryboardRunLane)
    → k.creation_task_public_id ≡ some "p"
    → IsOverLane canceller over_studio.scheduler k
over_lane k h = record {
  task = "p";
  work = done;
  named = refl;
  of_lane = h;
  found = done_found;
  over = refl;
}

cancel-over_lane_example :
    (after : Studio) × (run_action canceller cancel run_one over_studio ≡ ok after)
    × All (λ l. IsOff after.lanes l.id) (list_run_lanes 1 over_studio)
    × (after.scheduler ≡ over_studio.scheduler)
cancel-over_lane_example =
    cancel-over_lane canceller run_one over_studio refl (over_lane finished_lane refl, tt)
