-- ===== src/Tests/Rows.antt =====
-- Runs of the operations on one task.
use ai_jin_shu.Common.{ℕ, ◌+◌, ◌≡◌, refl, none, some, List, [], ◌∷◌, ok}
use ai_jin_shu.Common.Int.{pos, ◌+ℤ◌}
use ai_jin_shu.Common.Table.{count}
use ai_jin_shu.Json.{Json, num, obj, Fields, end, field, as_dict, get, set_key}
use ai_jin_shu.Tasks.{CreationTask, Status, queued, dispatching, running, completed, failed}
use ai_jin_shu.Tasks.Transition.{Report, transition_task_status}
use ai_jin_shu.Tasks.Transition.Runs.{transitions}
use ai_jin_shu.Scheduler.Store.{Db, get_task_by_id, count_user_running_slots}
use ai_jin_shu.Scheduler.Rows.{pause_row, resume_row, refreshed, marked_running, lease_ttl_seconds}
use ai_jin_shu.Scheduler.Progress.{Usage, raise_usage}
use ai_jin_shu.Scheduler.Operations.{finalize_task}
use ai_jin_shu.Scheduler.Recovery.{reclaim_stale_running_tasks}
use ai_jin_shu.Scheduler.Lifecycle.Closed.{IsFinal, closed-IsFinal}
use ai_jin_shu.Scheduler.Lifecycle.Finalize.{finalize_task-frees, IsFreed}
use ai_jin_shu.Scheduler.Lifecycle.Leases.{reclaim-clears, lost, lost_of}
use ai_jin_shu.Scheduler.Lifecycle.Resume.{IsSameWork, runtime, pause-resume}
use ai_jin_shu.Tests.Data.{py, waiting, busy, done, db, quiet_report, says}

closed-IsFinal_example : IsFinal py says 50 queued failed quiet_report "w" none done
closed-IsFinal_example =
    closed-IsFinal py says 50 queued failed quiet_report "w" none done refl refl

finalize_task-frees_example :
    (u : CreationTask) × (db' : Db) × (finalize_task 50 2 completed quiet_report none db
      ≡ ok (some u, db'))
    × IsFreed completed busy u db db'
unfolding get_task_by_id
finalize_task-frees_example =
    finalize_task-frees 50 2 completed quiet_report none busy db refl refl refl

abbrev bound_task : CreationTask
bound_task = record (waiting 4) { status = dispatching; worker_task_id = some "w4" }

abbrev started : CreationTask
started = record (refreshed 100 (pos lease_ttl_seconds) bound_task) {
  status = running;
  started_at = some 100;
}

started_ok : marked_running 100 "w4" bound_task ≡ ok started
unfolding marked_running refreshed
started_ok = refl

reclaim-clears_example :
    (count (lost 50) (reclaim_stale_running_tasks 50 db).1.tasks ≡ 0)
    × ((reclaim_stale_running_tasks 50 db).0 ≡ count (lost 50) db.tasks)
    × (count_user_running_slots (reclaim_stale_running_tasks 50 db).1 "u1"
          + count (lost_of 50 "u1") db.tasks
        ≡ count_user_running_slots db "u1")
reclaim-clears_example = reclaim-clears 50 "u1" db

pause-resume_example :
    (u : CreationTask) × (v : CreationTask) × (pause_row 50 busy ≡ ok u)
    × (resume_row py says 60 u ≡ ok v)
    × IsSameWork busy v
    × (get "retry_resume_chapter" (runtime v.resume_cursor_json) ≡ num (pos 4))
    × (get "kept" (runtime v.resume_cursor_json) ≡ get "kept" (runtime busy.resume_cursor_json))
    × (get "next" (as_dict v.resume_cursor_json) ≡ get "next" (as_dict busy.resume_cursor_json))
unfolding get
pause-resume_example =
    pause-resume py says 50 60 busy (some (pos 4)) "next" "kept" refl refl refl refl

abbrev cursor : Json
cursor = obj (field "runtime_state" (obj (field "kept" (num (pos 1)) end)) end)

abbrev steps : List (ℕ × Status × Report)
steps = (10, dispatching, quiet_report) ∷ (20, failed, quiet_report) ∷ []

abbrev given_up : CreationTask
given_up = record (waiting 1) { status = failed; finished_at = some 20 }

steps_ok : transitions (waiting 1) steps ≡ ok given_up
unfolding transition_task_status
steps_ok = refl

abbrev usage : Usage
usage = record {
  progress = none;
  phase = none;
  message = none;
  token_usage_input = some (pos 30);
  token_usage_output = some (pos 20);
  token_usage_billable = some (pos 10);
  estimated_cost = none;
}

abbrev usage_result : Fields
usage_result =
    field "token_usage_input" (num (pos 30))
      (field "token_usage_output" (num (pos 20)) (field "token_usage_billable" (num (pos 50)) end))

usage_ok : raise_usage py usage (obj end) ≡ ok (obj usage_result)
unfolding raise_usage get set_key ◌+ℤ◌
usage_ok = refl
