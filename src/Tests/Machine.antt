-- ===== src/Tests/Machine.antt =====
-- Runs of the scheduler's machine.
use ai_jin_shu.Common.{ℕ, String, arith}
use ai_jin_shu.Scheduler.Store.{Db, count_user_running_slots}
use ai_jin_shu.Scheduler.Dispatch.{dispatch_user_queue_for_user}
use ai_jin_shu.Scheduler.Reservation.{limit_of, locked}
use ai_jin_shu.Quota.{get_user_concurrency_limit, lock_user_quota_row}
use ai_jin_shu.Scheduler.Recovery.{reclaim_stale_running_tasks}
use ai_jin_shu.Scheduler.Invariant.{IsSound}
use ai_jin_shu.Scheduler.Invariant.Reach.{
  Step, reclaims, dispatches, stays, goes_on, IsSafe, reachable-IsSafe,
}
use ai_jin_shu.Scheduler.Invariant.Capacity.{IsWithin, dispatch_user_queue_for_user-IsWithin}
use ai_jin_shu.Tests.Data.{db, outside}

db-IsSound : IsSound db.tasks db.next_id
db-IsSound = ground arith

dispatch_user_queue_for_user-IsWithin_example :
    IsWithin
      (limit_of outside "u1" (locked outside "u1" db))
      "u1"
      db
      (dispatch_user_queue_for_user outside "down" "u1" db).1
dispatch_user_queue_for_user-IsWithin_example =
    dispatch_user_queue_for_user-IsWithin outside "down" "u1" db db-IsSound

abbrev three : String → ℕ
three user = 3

db-IsSafe : IsSafe three db
unfolding count_user_running_slots
db-IsSafe = record { sound = db-IsSound; slots = λ v. ground arith }

abbrev dispatched : Db
dispatched = (dispatch_user_queue_for_user outside "down" "u1" db).1

first-Step : Step three db dispatched
unfolding get_user_concurrency_limit lock_user_quota_row
first-Step = dispatches outside "down" "u1" db (omega arith)

reachable-IsSafe_example : IsSafe three (reclaim_stale_running_tasks 9000 dispatched).1
reachable-IsSafe_example =
    reachable-IsSafe three db (reclaim_stale_running_tasks 9000 dispatched).1
      (goes_on db dispatched (reclaim_stale_running_tasks 9000 dispatched).1 first-Step (
        goes_on dispatched (reclaim_stale_running_tasks 9000 dispatched).1
          (reclaim_stale_running_tasks 9000 dispatched).1 (reclaims 9000 dispatched)
          (stays (reclaim_stale_running_tasks 9000 dispatched).1)))
      db-IsSafe
