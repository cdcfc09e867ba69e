-- ===== src/Scheduler/Dispatch.antt =====
-- Dispatching in app/services/scheduler/scheduler_service.py: the publication of a reserved batch after
-- the commit, and what undoes a failed publication.
pub mod Failures
use ai_jin_shu.Common.{
  ℕ, ◌+◌, ◌-◌, min, Bool, true, false, not, ◌&&◌, ◌||◌, Option, none, some, String, List, [], ◌∷◌,
  ◌++◌, map, str_eq, or_else, ◌==◌, length, any, if◌then◌else◌, Result, ok, err, ◌>>=◌,
}
use ai_jin_shu.Common.Int.{ℤ, pos, negsuc}
use ai_jin_shu.Common.Table.{find, put}
use ai_jin_shu.Json.{Json, Fields, get, Numerals}
use ai_jin_shu.Flags.{is_enabled}
use ai_jin_shu.Budget.{check_budget, BudgetStatus, hard_stop}
use ai_jin_shu.Quota.{lock_user_quota_row, get_user_concurrency_limit}
use ai_jin_shu.Tasks.{
  Status, queued, dispatching, failed, Error, unknown_task_type, CreationTask, is_dispatching,
  is_queued, is_novel_generation, seconds,
}
use ai_jin_shu.Tasks.Transition.{Report, transition_task_status}
use ai_jin_shu.Scheduler.Store.{
  Db, GenerationTask, Effect, snapshot, get_task_by_id, save, count_user_running_slots,
}
use ai_jin_shu.Scheduler.Rows.{report, unbound, is_worker}
use ai_jin_shu.Scheduler.Payload.{prepare_worker_task_dispatch}
use ai_jin_shu.Scheduler.Queue.{next_queued}
use ai_jin_shu.Scheduler.Reservation.{
  DispatchReservation, Outside, batch, bound, failure, is_budget_hard_stopped, is_hard_stop,
  limit_of, locked, max_dispatch_batch, prepare_or_fail, reservation, reserve_all,
  reserve_dispatch_batch, reserve_one,
}

-- `_publish_worker_task`: the known types have a Celery task, and the broker may refuse.
unfoldable pub publishes : Outside → DispatchReservation → Bool
publishes o r =
    (str_eq r.task_type "generation"
      || str_eq r.task_type "rewrite"
      || str_eq r.task_type "storyboard_lane"
      || str_eq r.task_type "storyboard")
    && o.broker_takes r

abbrev pub of_worker : String → GenerationTask → Bool
of_worker w g = str_eq g.task_id w

abbrev pub publish_failed : Option String → Report
publish_failed detail = record {
  phase = some "queued";
  message = some "任务派发失败，已重新入队";
  progress = none;
  error_code = some "DISPATCH_PUBLISH_FAILED";
  error_category = some "transient";
  error_detail = detail;
}

-- The legacy row of the worker that never started.
abbrev pub fail_legacy : String → String → List GenerationTask → List GenerationTask
fail_legacy w detail rows = elim (find (of_worker w) rows) [
  | none ↦ rows
  | some g ↦
      put (of_worker w)
        (record g {
          status = "failed";
          run_state = "failed";
          current_phase = "failed";
          message = "任务派发失败，已重新入队";
          error = some detail;
          error_code = some "DISPATCH_PUBLISH_FAILED";
          error_category = some "transient";
        })
        rows
]

-- The writes of a requeue: the row `u` without its worker, and the legacy row of a generation.
abbrev pub requeued : ℕ → String → DispatchReservation → CreationTask → CreationTask → Db → Db
requeued now detail r t u db =
    if is_novel_generation t
    then record (save now (unbound u) db) {
      generation_tasks = fail_legacy r.worker_task_id detail db.generation_tasks;
      effects = db.effects ++ snapshot (unbound u) (some r.worker_task_id) ∷ [];
    }
    else save now (unbound u) db

-- The row goes back to the queue.
abbrev pub requeue_row : ℕ → String → DispatchReservation → CreationTask → Db → Result Error Db
requeue_row now detail r t db =
    if not (is_dispatching t.status && is_worker t.worker_task_id r.worker_task_id)
    then ok db
    else do
      u ← transition_task_status now t queued (publish_failed (some detail))
      ok (requeued now detail r t u db)

-- `_requeue_failed_dispatch`: only the reservation's own worker is undone. Its session is its own,
-- so an error leaves the database as it was.
unfoldable pub requeue_failed_dispatch : ℕ → String → DispatchReservation → Db → Db
unfolding get_task_by_id
requeue_failed_dispatch now detail r db = elim (get_task_by_id db r.creation_task_id) [
  | none ↦ db
  | some t ↦ elim (requeue_row now detail r t db) [ ok db' ↦ db' | err e ↦ db ]
]

-- The loop over the reservations after the commit; `detail` is the text of the broker's exception.
unfoldable pub publish_all : Outside → String → List DispatchReservation → Db → Db
unfolding publishes requeue_failed_dispatch
publish_all o detail [] db = db
publish_all o detail (r ∷ rs) db =
    publish_all o detail rs
      (if publishes o r then db else requeue_failed_dispatch o.now detail r db)

-- The snapshots of the reserved rows, and the rows themselves, as they stand after the commit.
unfoldable pub reserved_rows : List DispatchReservation → Db → List CreationTask
unfolding get_task_by_id
reserved_rows [] db = []
reserved_rows (r ∷ rs) db =
    let rest = reserved_rows rs db in
    elim (get_task_by_id db r.creation_task_id) [ none ↦ rest | some t ↦ t ∷ rest ]

abbrev pub dispatch_snapshots : List CreationTask → List Effect
dispatch_snapshots [] = []
dispatch_snapshots (t ∷ ts) =
    let rest = dispatch_snapshots ts in
    if is_novel_generation t then snapshot t none ∷ rest else rest

-- `dispatch_user_queue_for_user`: an exception of the reservation rolls everything back.
unfoldable pub dispatch_user_queue_for_user :
    Outside → String → String → Db → Result Error (List CreationTask) × Db
unfolding reserve_dispatch_batch reserved_rows publish_all
dispatch_user_queue_for_user o detail uuid db = elim (reserve_dispatch_batch o uuid db) [
  | err e ↦ (err e, db)
  | ok r ↦ (
    ok (reserved_rows r.0 r.1),
    publish_all o detail r.0
        (record (r.1) { effects = r.1.effects ++ dispatch_snapshots (reserved_rows r.0 r.1) }),
  )
]

abbrev pub drop_user : String → List String → List String
drop_user u [] = []
drop_user u (v ∷ vs) = let rest = drop_user u vs in if str_eq v u then rest else v ∷ rest

-- The distinct users with a queued task, in the order of their first one.
unfoldable pub queued_users : List CreationTask → List String
queued_users [] = []
queued_users (t ∷ ts) =
    let rest = queued_users ts in
    if is_queued t.status then t.user_uuid ∷ drop_user t.user_uuid rest else rest

-- The loop of `dispatch_global`: the users before an exception keep what was committed for them.
unfoldable pub dispatch_users : Outside → String → List String → ℕ → Db → Result Error ℕ × Db
dispatch_users o detail [] n db = (ok n, db)
dispatch_users o detail (u ∷ us) n db =
    let (r, db') = dispatch_user_queue_for_user o detail u db in
    elim r [ err e ↦ (err e, db') | ok rows ↦ dispatch_users o detail us (n + length rows) db' ]

-- `dispatch_global`
unfoldable pub dispatch_global : Outside → String → Db → Result Error ℕ × Db
unfolding queued_users dispatch_users
dispatch_global o detail db = dispatch_users o detail (queued_users db.tasks) 0 db
