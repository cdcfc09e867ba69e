-- ===== src/Scheduler/Lifecycle/Finalize.antt =====
-- `finalize_task` of app/services/scheduler/scheduler_service.py.
use ai_jin_shu.Common.{
  ℕ, ◌+◌, ◌≡◌, refl, sym, subst, true, false, Option, ok, none, some, arith, eq_refl, ==_iff,
}
use ai_jin_shu.Common.Table.{find, count-put, find-passes}
use ai_jin_shu.Json.{Json}
use ai_jin_shu.Tasks.{CreationTask, Status, is_queued, holds_slot}
use ai_jin_shu.Tasks.Transition.{Report}
use ai_jin_shu.Scheduler.Store.{
  Db, has_id, in_slot_of, save, get_task_by_id, count_user_running_slots,
}
use ai_jin_shu.Scheduler.Rows.{finalize_row, is_final, ended}
use ai_jin_shu.Scheduler.Operations.{finalize_task, settled}

-- A worker that reports the end of a task which no worker holds any more, since it was paused,
-- finished, or queued again, changes nothing and gets the row as it is.
pub finalize_task-stale :
    (now i : ℕ) (f : Status) (r : Report) (result : Option Json) (t : CreationTask) (db : Db)
    → get_task_by_id db i ≡ some t
    → holds_slot t.status ≡ false
    → is_queued f ≡ false
    → finalize_task now i f r result db ≡ ok (some t, db)
unfolding finalize_task finalize_row
finalize_task-stale now i f r result t db e h k = ground (arith, e)

found_own :
    (i : ℕ) (t : CreationTask) (db : Db)
    → find (has_id i) db.tasks ≡ some t
    → find (has_id t.id) db.tasks ≡ some t
found_own i t db e =
    subst (λ x. find (has_id x) db.tasks ≡ some t)
      (sym ((==_iff t.id i).0 (find-passes (has_id i) db.tasks t e))) e

-- The end of a task that a worker holds, with one of the five final statuses.
pub record IsFreed (f : Status) (t u : CreationTask) (db db' : Db) : Type 0 where
  pub status : u.status ≡ f
  pub worker : u.worker_task_id ≡ none
  pub lease : u.worker_lease_expires_at ≡ none
  pub slot : count_user_running_slots db' t.user_uuid + 1 ≡ count_user_running_slots db t.user_uuid

freed_row :
    (now : ℕ) (f : Status) (r : Report) (result : Option Json) (t : CreationTask)
    → holds_slot t.status ≡ true
    → is_final f ≡ true
    → (u : CreationTask) × (finalize_row now f r result t ≡ ok (some u))
      × (u.status ≡ f)
      × (u.worker_task_id ≡ none)
      × (u.worker_lease_expires_at ≡ none)
      × (u.id ≡ t.id)
      × (holds_slot u.status ≡ false)
unfolding finalize_row
freed_row now f r result t h k = (
  ended now f r result t,
  ground arith,
  ground arith,
  ground arith,
  ground arith,
  ground arith,
  ground arith,
)

-- The report of the worker that holds a task, with one of the five final statuses, is taken: the
-- task has that status, no worker and no lease, and its user has one slot less in use.
pub finalize_task-frees :
    (now i : ℕ) (f : Status) (r : Report) (result : Option Json) (t : CreationTask) (db : Db)
    → get_task_by_id db i ≡ some t
    → holds_slot t.status ≡ true
    → is_final f ≡ true
    → (u : CreationTask) × (db' : Db) × (finalize_task now i f r result db ≡ ok (some u, db'))
      × IsFreed f t u db db'
unfolding get_task_by_id finalize_task save count_user_running_slots
finalize_task-frees now i f r result t db e h k =
    let (u, made, s, w, l, same, free) = freed_row now f r result t h k in
    (
      u,
      (settled now f t db (some u)).1,
      rw (finalize_task, e, made) refl,
      record {
        status = s;
        worker = w;
        lease = l;
        slot = ground (
          arith,
          count-put (has_id u.id) (in_slot_of t.user_uuid) (record u { updated_at = now }) db.tasks
              t (rw same (found_own i t db e)),
          eq_refl t.user_uuid,
        );
      },
    )
