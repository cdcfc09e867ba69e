-- ===== src/Storyboards/Actions.antt =====
-- `run_action` of app/services/storyboard/runtime_v2.py: a run is paused, resumed or cancelled by the
-- scheduler's operations on the tasks of its lanes.
use ai_jin_shu.Common.{
  ℕ, zero, suc, Bool, true, false, not, ◌&&◌, Option, none, some, String, List, [], ◌∷◌, str_eq,
  ◌==◌, or_else, if◌then◌else◌, Result, ok, err,
}
use ai_jin_shu.Common.Int.{ℤ}
use ai_jin_shu.Json.{Numerals}
use ai_jin_shu.Tasks.{Error, CreationTask}
use ai_jin_shu.Scheduler.Store.{Db}
use ai_jin_shu.Scheduler.Operations.{pause_task, resume_task, cancel_task}
use ai_jin_shu.Storyboards.{
  RunState, queued, running, paused, cancelled, StoryboardProject, StoryboardRun, StoryboardRunLane,
  event, audit, Studio, LaneChange, is_over, is_cancelled, is_paused, get_project, list_run_lanes,
  save_project, save_run, logged, update_run_lane_state,
}
use ai_jin_shu.Storyboards.Lanes.{
  RunError, run_already_terminal, no_lanes_resumed, unsupported_action,
}

pub data RunAction : Type 0 where
  pause resume cancel : RunAction
  unsupported : String → RunAction

abbrev pub is_cancel : RunAction → Bool
is_cancel cancel = true
is_cancel a = false

-- The text of the action.
abbrev pub action_name : RunAction → String
action_name pause = "pause"
action_name resume = "resume"
action_name cancel = "cancel"
action_name (unsupported a) = a

abbrev pub lane_change : RunState → String → String → LaneChange
lane_change state phase message = record {
  status = some state;
  run_state = some state;
  current_phase = some phase;
  progress = none;
  message = some message;
  error = none;
  error_code = none;
  error_category = none;
  gate_report_json = none;
}

-- What an action writes to a lane after its task took it.
abbrev pub lane_after : RunAction → String → LaneChange
lane_after pause lane =
    lane_change paused "paused" (if str_eq lane "vertical_feed" then "竖屏版已暂停" else "横屏版已暂停")
lane_after resume lane =
    lane_change queued "queued"
      (if str_eq lane "vertical_feed" then "竖屏版已恢复，等待调度" else "横屏版已恢复，等待调度")
lane_after a lane =
    lane_change cancelled "cancelled" (if str_eq lane "vertical_feed" then "竖屏版已取消" else "横屏版已取消")

-- The user of the action, and what the scheduler's operations need.
pub record Actor : Type 0 where
  pub user_uuid : String
  pub now : ℕ
  pub py : Numerals
  pub resume_message : Option ℤ → String

-- The operation of the scheduler that an action calls.
unfoldable pub task_action : Actor → RunAction → String → Db → Result Error (CreationTask × Db)
unfolding pause_task resume_task cancel_task
task_action a pause task db = pause_task a.now task a.user_uuid db
task_action a resume task db = resume_task a.py a.resume_message a.now task a.user_uuid db
task_action a c task db = cancel_task a.now task a.user_uuid db

-- One lane: no task is no action, and an exception is passed over. The Boolean is whether the task
-- took the action.
unfoldable pub act_on_lane : Actor → RunAction → StoryboardRunLane → Studio → Bool × Studio
unfolding task_action update_run_lane_state
act_on_lane a c l s = elim l.creation_task_public_id [
  | none ↦ (false, s)
  | some task ↦ if str_eq task "" then (false, s) else elim (task_action a c task s.scheduler) [
    | err e ↦ (false, s)
    | ok (t, db) ↦
        (true, update_run_lane_state a.now l.id (lane_after c l.lane) (record s { scheduler = db }))
  ]
]

-- The loop over the lanes, with the number of those that took the action.
unfoldable pub act_on_lanes : Actor → RunAction → List StoryboardRunLane → Studio → ℕ × Studio
unfolding act_on_lane
act_on_lanes a c [] s = (zero, s)
act_on_lanes a c (l ∷ ls) s =
    let (took, after) = act_on_lane a c l s in
    let (count, last) = act_on_lanes a c ls after in ((if took then suc count else count), last)

-- The column `updated_at` is set at each flush of a changed row.
abbrev pub run_with : ℕ → RunState → RunState → String → String → StoryboardRun → StoryboardRun
run_with now status state phase message r = record r {
  updated_at = now;
  status = status;
  run_state = state;
  current_phase = phase;
  message = message;
}

abbrev pub cancel_project : Option StoryboardProject → Studio → Studio
cancel_project none s = s
cancel_project (some p) s = save_project (record p { status = "cancelled" }) s

abbrev pub cancelled_run : ℕ → StoryboardRun → StoryboardRun
cancelled_run now r = record (run_with now cancelled cancelled "cancelled" "分镜运行已取消" r) {
  finished_at = some (or_else r.finished_at now);
}

-- The audit row and the event at the end.
abbrev pub action_logged : Actor → RunAction → StoryboardRun → Studio → Studio
action_logged a c r s =
    logged
      (audit r.storyboard_project_id r.id (action_name c) a.user_uuid
        ∷ event r.storyboard_project_id r.id "storyboard.run"
        ∷ [])
      s

unfoldable pub pause_run : Actor → StoryboardRun → List StoryboardRunLane → Studio → Studio
unfolding act_on_lanes
pause_run a r ls s =
    if is_paused r.run_state
    then s
    else action_logged a pause r
        (save_run (run_with a.now paused paused "paused" "分镜运行已暂停" r) (act_on_lanes a pause ls s).1)

unfoldable pub resume_run :
    Actor → StoryboardRun → List StoryboardRunLane → Studio → Result RunError Studio
unfolding act_on_lanes
resume_run a r ls s =
    let (count, after) = act_on_lanes a resume ls s in
    if count == 0
    then err no_lanes_resumed
    else ok (
        action_logged a resume r
          (save_run (run_with a.now running queued "queued" "分镜运行已恢复，等待调度" r) after))

unfoldable pub cancel_run : Actor → StoryboardRun → List StoryboardRunLane → Studio → Studio
unfolding act_on_lanes
cancel_run a r ls s =
    if is_cancelled r.run_state
    then s
    else (let after = save_run (cancelled_run a.now r) (act_on_lanes a cancel ls s).1 in
        action_logged a cancel r (cancel_project (get_project r.storyboard_project_id after) after))

-- `run_action`
unfoldable pub run_action : Actor → RunAction → StoryboardRun → Studio → Result RunError Studio
unfolding pause_run resume_run cancel_run
run_action a c r s =
    if is_over r.run_state && not (is_cancel c) then err run_already_terminal else elim c [
      | pause ↦ ok (pause_run a r (list_run_lanes r.id s) s)
      | resume ↦ resume_run a r (list_run_lanes r.id s) s
      | cancel ↦ ok (cancel_run a r (list_run_lanes r.id s) s)
      | unsupported x ↦ err unsupported_action
    ]
