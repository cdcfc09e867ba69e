-- ===== src/Storyboards/Status.antt =====
-- `refresh_run_status` of app/services/storyboard/runtime_v2.py: the status of a run from its lanes.
use ai_jin_shu.Common.{
  ℕ, ◌+◌, ◌*◌, ◌/◌, Bool, true, false, not, ◌&&◌, Option, none, some, String, List, [], ◌∷◌, map,
  ◌==◌, str_eq, length, any, all, or_else, if◌then◌else◌,
}
use ai_jin_shu.Common.Table.{find}
use ai_jin_shu.Storyboards.{
  RunState, StoryboardProject, StoryboardRun, StoryboardRunLane, StoryboardVersion, Studio,
  cancelled, completed, dispatching, event, failed, get_project, get_run, is_cancelled,
  is_completed, is_failed, is_over, is_paused, list_run_lanes, logged, paused, queued, retrying,
  running, save_project, save_run, submitted,
}

abbrev pub total_progress : List StoryboardRunLane → ℕ
total_progress [] = 0
total_progress (l ∷ ls) = l.progress + total_progress ls

-- The mean with two decimals; the half is rounded up.
abbrev pub mean_progress : List StoryboardRunLane → ℕ
mean_progress [] = 0
mean_progress (l ∷ ls) =
    let n = length (l ∷ ls) in (total_progress (l ∷ ls) + n * 5000) / (n * 10000) * 10000

abbrev pub every : (RunState → Bool) → List StoryboardRunLane → Bool
every p ls = all (λ l. p l.status) ls

abbrev pub some_lane : (RunState → Bool) → List StoryboardRunLane → Bool
some_lane p ls = any (λ l. p l.status) ls

abbrev pub is_busy : RunState → Bool
is_busy running = true
is_busy submitted = true
is_busy queued = true
is_busy dispatching = true
is_busy retrying = true
is_busy s = false

-- The branches of `refresh_run_status`.
abbrev pub aggregate : List StoryboardRunLane → RunState
aggregate ls =
    if every is_completed ls
    then completed
    else if some_lane is_failed ls
    then failed
    else if every is_cancelled ls
    then cancelled
    else if some_lane is_paused ls && not (some_lane is_busy ls)
    then paused
    else running

-- What each branch writes as the phase and as the message.
abbrev pub phase_of : RunState → String
phase_of completed = "completed"
phase_of failed = "failed"
phase_of cancelled = "cancelled"
phase_of paused = "paused"
phase_of s = "lane_running"

abbrev pub message_of : RunState → String
message_of completed = "双 Lane 分镜生成完成"
message_of failed = "至少一个 Lane 生成失败"
message_of cancelled = "分镜运行已取消"
message_of paused = "分镜运行已暂停"
message_of s = "Lane 并行执行中"

abbrev pub refreshed_run : ℕ → List StoryboardRunLane → StoryboardRun → StoryboardRun
refreshed_run now ls r =
    let state = aggregate ls in
    record r {
      progress = mean_progress ls;
      status = state;
      run_state = state;
      current_phase = phase_of state;
      message = message_of state;
      finished_at = if is_over state then some (or_else r.finished_at now) else r.finished_at;
      updated_at = now;
    }

-- The lane to review first: the vertical one, or else the first.
abbrev pub preferred : StoryboardRunLane → List StoryboardRunLane → StoryboardRunLane
preferred l ls = or_else (find (λ k. str_eq k.lane "vertical_feed") (l ∷ ls)) l

abbrev pub review_version : ℕ → ℕ → StoryboardVersion → StoryboardVersion
review_version project i v =
    if v.storyboard_project_id == project then record v { is_default = v.id == i } else v

-- The writes beside the run's row.
abbrev pub follow_up : RunState → StoryboardRunLane → StoryboardProject → Studio → Studio
follow_up completed best p s =
    record (save_project (record p { status = "reviewing"; active_lane = best.lane }) s) {
      versions = map (review_version p.id best.storyboard_version_id) s.versions;
    }
follow_up failed best p s = save_project (record p { status = "failed" }) s
follow_up cancelled best p s = save_project (record p { status = "cancelled" }) s
follow_up state best p s = s

abbrev pub follow_project :
    RunState → StoryboardRunLane → Option StoryboardProject → Studio → Studio
follow_project state best none s = s
follow_project state best (some p) s = follow_up state best p s

abbrev pub refresh_lanes : ℕ → StoryboardRun → List StoryboardRunLane → Studio → Studio
refresh_lanes now r [] s = s
refresh_lanes now r (l ∷ ls) s = logged (event r.storyboard_project_id r.id "storyboard.run" ∷ []) (
    follow_project (aggregate (l ∷ ls)) (preferred l ls) (get_project r.storyboard_project_id s)
      (save_run (refreshed_run now (l ∷ ls) r) s))

-- `refresh_run_status`
unfoldable pub refresh_run_status : ℕ → ℕ → Studio → Studio
refresh_run_status now i s = elim (get_run i s) [
  | none ↦ s
  | some r ↦ refresh_lanes now r (list_run_lanes i s) s
]
