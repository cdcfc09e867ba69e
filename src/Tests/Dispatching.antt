-- ===== src/Tests/Dispatching.antt =====
-- Runs of the queue and of dispatches that fail.
use ai_jin_shu.Common.{◌≡◌, refl, true, false, some, [], ◌∷◌, err}
use ai_jin_shu.Common.Sorting.{sort_by}
use ai_jin_shu.Common.Int.{◌+ℤ◌}
use ai_jin_shu.Json.{end, get}
use ai_jin_shu.Flags.{is_enabled, get_flag_state}
use ai_jin_shu.Budget.{check_budget, budget_usd, spent_for_novel}
use ai_jin_shu.Tasks.Transition.{moved}
use ai_jin_shu.Quota.{get_user_concurrency_limit}
use ai_jin_shu.Tasks.{CreationTask, queued, failed, Error, illegal_transition, missing_payload_key}
use ai_jin_shu.Scheduler.Store.{Db, save, count_user_running_slots}
use ai_jin_shu.Scheduler.Queue.{next_queued}
use ai_jin_shu.Scheduler.Payload.{prepare_worker_task_dispatch, require_keys}
use ai_jin_shu.Scheduler.Dispatch.{queued_users, dispatch_global}
use ai_jin_shu.Scheduler.Reservation.{DispatchReservation, batch, locked, is_budget_hard_stopped}
use ai_jin_shu.Scheduler.Dispatch.Failures.{hard_stop_blocks_all, taken}
use ai_jin_shu.Tests.Data.{waiting, db, enforced, outside, payload}

abbrev first : CreationTask
first = record (waiting 9) { priority = 1 }

abbrev stopped_db : Db
stopped_db = record db { flags = some (enforced ∷ []) }

first_in_batch : batch outside "u1" (locked outside "u1" stopped_db) ≡ waiting 1 ∷ []
unfolding batch next_queued get_user_concurrency_limit count_user_running_slots sort_by
first_in_batch = refl

over_budget : is_budget_hard_stopped outside (locked outside "u1" stopped_db) (waiting 1) ≡ true
unfolding is_budget_hard_stopped is_enabled check_budget get_flag_state budget_usd get
    spent_for_novel ◌+ℤ◌
over_budget = refl

only_user : queued_users stopped_db.tasks ≡ "u1" ∷ []
unfolding queued_users
only_user = refl

hard_stop_blocks_all_example :
    dispatch_global outside "down" stopped_db ≡ (err (illegal_transition queued failed), stopped_db)
hard_stop_blocks_all_example =
    hard_stop_blocks_all outside "down" "u1" (waiting 1) [] stopped_db refl first_in_batch refl
      over_budget [] only_user

abbrev empty_task : CreationTask
empty_task = record (waiting 1) { payload_json = end }

within_budget : is_budget_hard_stopped outside db empty_task ≡ false
unfolding is_budget_hard_stopped is_enabled get_flag_state
within_budget = refl

no_payload :
    prepare_worker_task_dispatch outside.numerals
      (taken outside empty_task)
      "w"
      (save 1000 (taken outside empty_task) db)
    ≡ err (missing_payload_key "generation" "novel_id")
unfolding prepare_worker_task_dispatch get moved require_keys
no_payload = refl

abbrev the_error : Error
the_error = missing_payload_key "generation" "novel_id"

abbrev late : DispatchReservation
late = record {
  creation_task_id = 2;
  public_id = "p";
  task_type = "generation";
  resource_type = "novel";
  resource_id = 7;
  worker_task_id = "w9";
  payload_json = payload;
}
