-- ===== src/Scheduler/Dispatch/Failures.antt =====
-- Dispatches of app/services/scheduler/scheduler_service.py that fail: an exhausted budget, a
-- payload that does not pass its checks, and a broker that takes no message.
use ai_jin_shu.Common.{
  ℕ, ◌≡◌, refl, ap, ◌∙◌, Bool, true, false, ◌&&◌, none, some, String, List, [], ◌∷◌, ok, err,
  Result, if◌then◌else◌,
}
use ai_jin_shu.Tasks.{
  CreationTask, queued, failed, dispatching, Error, illegal_transition, is_dispatching,
}
use ai_jin_shu.Tasks.Transition.{transition_task_status, moved}
use ai_jin_shu.Scheduler.Store.{Db, save, get_task_by_id}
use ai_jin_shu.Scheduler.Rows.{is_worker, unbound, report}
use ai_jin_shu.Scheduler.Payload.{prepare_worker_task_dispatch}
use ai_jin_shu.Scheduler.Dispatch.{
  dispatch_user_queue_for_user, dispatch_global, dispatch_users, queued_users,
  requeue_failed_dispatch,
}
use ai_jin_shu.Scheduler.Reservation.{
  Outside, DispatchReservation, is_budget_hard_stopped, reserve_one, prepare_or_fail, reserve_all,
  reserve_dispatch_batch, batch, locked, failure, bound,
}

when {ℓ} : {A : Type ℓ} (b : Bool) (x y : A) → b ≡ true → (if b then x else y) ≡ x
when b x y h = rw h refl

hard_stopped_one :
    (o : Outside) (t : CreationTask) (db : Db)
    → t.status ≡ queued
    → is_budget_hard_stopped o db t ≡ true
    → reserve_one o t db ≡ err (illegal_transition queued failed)
unfolding reserve_one transition_task_status
hard_stopped_one o t db w s = rw (reserve_one, s) (rw w refl)

hard_stopped_all :
    (o : Outside) (t : CreationTask) (ts : List CreationTask) (db : Db)
    → t.status ≡ queued
    → is_budget_hard_stopped o db t ≡ true
    → reserve_all o (t ∷ ts) db ≡ err (illegal_transition queued failed)
unfolding reserve_all
hard_stopped_all o t ts db w s = rw (reserve_all, hard_stopped_one o t db w s) refl

module _ (o : Outside) (detail uuid : String) (t : CreationTask) (ts : List CreationTask) (db : Db)
    (enabled : o.creation_scheduler_enabled ≡ true)
    (next : batch o uuid (locked o uuid db) ≡ t ∷ ts) (waits : t.status ≡ queued)
    (stopped : is_budget_hard_stopped o (locked o uuid db) t ≡ true) where
  hard_stopped_batch : reserve_dispatch_batch o uuid db ≡ err (illegal_transition queued failed)
  unfolding reserve_dispatch_batch
  hard_stopped_batch =
      when o.creation_scheduler_enabled _ _ enabled
      ∙ ap (λ b. reserve_all o b (locked o uuid db)) next
      ∙ hard_stopped_all o t ts (locked o uuid db) waits stopped

  -- When the first task of a user's batch is over its hard budget limit, the dispatch raises the
  -- error of a transition from `queued` to `failed`, which the status table does not have, and the
  -- database stays as it was: the task is not failed, and the tasks behind it are not dispatched.
  pub hard_stop_blocks :
      dispatch_user_queue_for_user o detail uuid db ≡ (err (illegal_transition queued failed), db)
  unfolding dispatch_user_queue_for_user
  hard_stop_blocks = rw (dispatch_user_queue_for_user, hard_stopped_batch) refl

  -- When the first task of the batch of the first user with a queued task is over its hard budget
  -- limit, a dispatch for all users raises the same error and leaves the database as it was: the
  -- users behind that one get nothing.
  pub hard_stop_blocks_all :
      (us : List String)
      → queued_users db.tasks ≡ uuid ∷ us
      → dispatch_global o detail db ≡ (err (illegal_transition queued failed), db)
  unfolding dispatch_global dispatch_users
  hard_stop_blocks_all us h =
      rw (dispatch_global, h)
        (rw (dispatch_users, hard_stop_blocks)
          (ap
            (λ (x : Result Error (List CreationTask) × Db).
              (err (illegal_transition queued failed), x.1))
            hard_stop_blocks))

-- The row that a round binds to its worker, and the row of a payload that does not pass.
abbrev pub taken : Outside → CreationTask → CreationTask
taken o t =
    bound o.now (o.fresh_worker t.id) (moved o.now t dispatching (report "dispatching" "任务调度中"))

abbrev pub refused : Outside → CreationTask → Error → CreationTask
refused o t e =
    moved o.now (unbound (taken o t)) failed
      (failure "任务派发失败" "DISPATCH_PAYLOAD_INVALID" "permanent" (some (o.describe e)))

prepare_fails :
    (o : Outside) (v : CreationTask) (db : Db) (e : Error)
    → v.status ≡ dispatching
    → prepare_worker_task_dispatch o.numerals v (o.fresh_worker v.id) db ≡ err e
    → prepare_or_fail o v db
      ≡ ok (
        [],
        save o.now
            (moved o.now
              (unbound v)
              failed
              (failure "任务派发失败" "DISPATCH_PAYLOAD_INVALID" "permanent" (some (o.describe e))))
            db,
      )
unfolding prepare_or_fail transition_task_status
prepare_fails o v db e w h = rw (prepare_or_fail, h) (rw w refl)

-- A queued task within its budget whose payload does not pass its checks is failed, with no worker
-- and with the reason of the failure, and the round of the reservation goes on with no reservation
-- for it.
pub bad_payload_fails_alone :
    (o : Outside) (t : CreationTask) (db : Db) (e : Error)
    → t.status ≡ queued
    → is_budget_hard_stopped o db t ≡ false
    → prepare_worker_task_dispatch o.numerals
        (taken o t)
        (o.fresh_worker t.id)
        (save o.now (taken o t) db)
      ≡ err e
    → (reserve_one o t db ≡ ok ([], save o.now (refused o t e) (save o.now (taken o t) db)))
      × ((refused o t e).status ≡ failed)
      × ((refused o t e).worker_task_id ≡ none)
      × ((refused o t e).worker_lease_expires_at ≡ none)
      × ((refused o t e).error_detail ≡ some (o.describe e))
      × ((refused o t e).id ≡ t.id)
unfolding reserve_one transition_task_status moved
bad_payload_fails_alone o t db e w s h = (
  rw (reserve_one, s, w) (prepare_fails o (taken o t) (save o.now (taken o t) db) e refl h),
  refl,
  refl,
  refl,
  refl,
  refl,
)

-- The requeue after a message that the broker did not take changes nothing when the task is not
-- dispatching for the worker of that message any more.
pub requeue_failed_dispatch-foreign :
    (now : ℕ) (detail : String) (r : DispatchReservation) (t : CreationTask) (db : Db)
    → get_task_by_id db r.creation_task_id ≡ some t
    → (is_dispatching t.status && is_worker t.worker_task_id r.worker_task_id) ≡ false
    → requeue_failed_dispatch now detail r db ≡ db
unfolding requeue_failed_dispatch
requeue_failed_dispatch-foreign now detail r t db h k = rw (requeue_failed_dispatch, h, k) refl
