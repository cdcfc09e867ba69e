-- ===== src/Scheduler/Reservation.antt =====
-- The reservation of a batch in app/services/scheduler/scheduler_service.py: what `_reserve_dispatch_batch`
-- does inside one transaction.
use ai_jin_shu.Common.{
  ℕ, ◌+◌, ◌-◌, min, Bool, true, false, not, ◌&&◌, ◌||◌, Option, none, some, String, List, [], ◌∷◌,
  ◌++◌, str_eq, ◌==◌, if◌then◌else◌, Result, ok, err, ◌>>=◌,
}
use ai_jin_shu.Common.Int.{ℤ}
use ai_jin_shu.Json.{Fields, Numerals}
use ai_jin_shu.Flags.{is_enabled}
use ai_jin_shu.Budget.{check_budget, BudgetStatus, hard_stop}
use ai_jin_shu.Quota.{lock_user_quota_row, get_user_concurrency_limit}
use ai_jin_shu.Tasks.{dispatching, failed, Error, CreationTask, seconds}
use ai_jin_shu.Tasks.Transition.{Report, transition_task_status}
use ai_jin_shu.Scheduler.Store.{Db, save, count_user_running_slots}
use ai_jin_shu.Scheduler.Rows.{report, unbound}
use ai_jin_shu.Scheduler.Payload.{prepare_worker_task_dispatch}
use ai_jin_shu.Scheduler.Queue.{next_queued}

pub record DispatchReservation : Type 0 where
  pub creation_task_id : ℕ
  pub public_id : String
  pub task_type : String
  pub resource_type : String
  pub resource_id : ℕ
  pub worker_task_id : String
  pub payload_json : Fields

-- What a dispatch takes from outside: the clock, the runtime settings, the hash of the flags, the
-- readers of numbers, the uuid drawn for a task's worker, the text of an exception, and whether the
-- broker takes a reservation's message.
pub record Outside : Type 0 where
  pub now : ℕ
  pub creation_scheduler_enabled : Bool
  pub creation_default_max_concurrent_tasks : ℤ
  pub digest : ℕ → ℕ
  pub numerals : Numerals
  pub fresh_worker : ℕ → String
  pub describe : Error → String
  pub broker_takes : DispatchReservation → Bool

-- CREATION_MAX_DISPATCH_BATCH
abbrev pub max_dispatch_batch : ℕ
max_dispatch_batch = 5

abbrev pub is_hard_stop : BudgetStatus → Bool
is_hard_stop hard_stop = true
is_hard_stop s = false

-- `_is_budget_hard_stopped`
unfoldable pub is_budget_hard_stopped : Outside → Db → CreationTask → Bool
is_budget_hard_stopped o db t =
    is_enabled o.digest db.flags "cost.budget_enforcement" none
    && (str_eq t.task_type "generation"
        || str_eq t.task_type "rewrite"
        || str_eq t.task_type "storyboard")
    && str_eq t.resource_type "novel"
    && not (t.resource_id == 0)
    && is_hard_stop (check_budget o.numerals t.resource_id db.novels db.events).status

abbrev pub failure : String → String → String → Option String → Report
failure message code category detail = record {
  phase = some "failed";
  message = some message;
  progress = none;
  error_code = some code;
  error_category = some category;
  error_detail = detail;
}

abbrev pub reservation : CreationTask → String → DispatchReservation
reservation t w = record {
  creation_task_id = t.id;
  public_id = t.public_id;
  task_type = t.task_type;
  resource_type = t.resource_type;
  resource_id = t.resource_id;
  worker_task_id = w;
  payload_json = t.payload_json;
}

-- The row of a task that is being dispatched to the worker `w`, with a lease of 120 seconds.
abbrev pub bound : ℕ → String → CreationTask → CreationTask
bound now w t = record t {
  worker_task_id = some w;
  worker_lease_expires_at = some (now + seconds 120);
}

-- The `try` of the loop: a payload that fails its checks fails the task alone.
unfoldable pub prepare_or_fail :
    Outside → CreationTask → Db → Result Error (List DispatchReservation × Db)
prepare_or_fail o t db =
    let w = o.fresh_worker t.id in
    elim (prepare_worker_task_dispatch o.numerals t w db) [
      | ok db' ↦ ok (reservation t w ∷ [], db')
      | err e ↦ (do
        u ←
            transition_task_status o.now (unbound t) failed
              (failure "任务派发失败" "DISPATCH_PAYLOAD_INVALID" "permanent" (some (o.describe e)))
        ok ([], save o.now u db))
    ]

-- One round of the loop of `_reserve_dispatch_batch`.
unfoldable pub reserve_one :
    Outside → CreationTask → Db → Result Error (List DispatchReservation × Db)
unfolding prepare_or_fail
reserve_one o t db =
    if is_budget_hard_stopped o db t
    then (do
      u ← transition_task_status o.now t failed (failure "预算硬停" "BUDGET_HARD_STOP" "permanent" none)
      ok ([], save o.now u db))
    else do
      u ← transition_task_status o.now t dispatching (report "dispatching" "任务调度中")
      let v = bound o.now (o.fresh_worker t.id) u
      prepare_or_fail o v (save o.now v db)

unfoldable pub reserve_all :
    Outside → List CreationTask → Db → Result Error (List DispatchReservation × Db)
reserve_all o [] db = ok ([], db)
reserve_all o (t ∷ ts) db = elim (reserve_one o t db) [
  | err e ↦ err e
  | ok first ↦ elim (reserve_all o ts first.1) [
    | err e ↦ err e
    | ok rest ↦ ok (first.0 ++ rest.0, rest.1)
  ]
]

-- The quota row is created and locked, and the free slots are counted.
abbrev pub locked : Outside → String → Db → Db
locked o uuid db = record db {
  quotas = lock_user_quota_row o.creation_default_max_concurrent_tasks db.users uuid db.quotas;
}

abbrev pub limit_of : Outside → String → Db → ℕ
limit_of o uuid db =
    (get_user_concurrency_limit o.creation_default_max_concurrent_tasks db.users uuid db.quotas).0

-- The tasks that the free slots, at most five, are given to.
unfoldable pub batch : Outside → String → Db → List CreationTask
batch o uuid db =
    let available = limit_of o uuid db - count_user_running_slots db uuid in
    next_queued (min available max_dispatch_batch) uuid db.tasks

-- `_reserve_dispatch_batch`; with no free slot the batch is empty.
unfoldable pub reserve_dispatch_batch :
    Outside → String → Db → Result Error (List DispatchReservation × Db)
unfolding batch
reserve_dispatch_batch o uuid db =
    if o.creation_scheduler_enabled
    then reserve_all o (batch o uuid (locked o uuid db)) (locked o uuid db)
    else ok ([], db)
