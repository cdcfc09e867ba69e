-- ===== src/Scheduler/Lifecycle/Leases.antt =====
-- Leases, ownership and recovery in app/services/scheduler/scheduler_service.py.
use ai_jin_shu.Common.{
  ℕ, suc, ◌+◌, ◌≡◌, refl, max, Bool, true, false, ◌&&◌, ◌||◌, none, some, String, List, [], ◌∷◌,
  ◌++◌, map, ok, ltb, leb, arith, length, select, Bool-cases, inl, inr, if◌then◌else◌, str_eq,
}
use ai_jin_shu.Common.Int.{ℤ, pos_part}
use ai_jin_shu.Common.Table.{count, weight, length-select}
use ai_jin_shu.Tasks.{CreationTask, running, queued, failed, holds_slot, seconds, is_running}
use ai_jin_shu.Scheduler.Store.{Db, in_slot_of, count_user_running_slots}
use ai_jin_shu.Scheduler.Rows.{refreshed, marked_running, is_worker, lease_ttl_seconds}
use ai_jin_shu.Scheduler.Recovery.{is_stale, is_orphaned, reclaimed, reclaim_stale_running_tasks}

-- After a heartbeat of a task that a worker holds, the recovery tick takes the task for lost exactly
-- when the lease, at least five seconds, is over.
pub heartbeat-protects :
    (now later : ℕ) (ttl : ℤ) (t : CreationTask)
    → holds_slot t.status ≡ true
    → (is_stale later (refreshed now ttl t) || is_orphaned later (refreshed now ttl t))
      ≡ ltb (now + seconds (max 5 (pos_part ttl))) later
unfolding is_stale is_orphaned refreshed
heartbeat-protects now later ttl t h = ground arith

-- Only the worker that a task is bound to starts it, only from `dispatching`, and the task then runs
-- with a lease of 300 seconds; the same worker may start it again, which changes nothing.
pub marked_running-owner :
    (now : ℕ) (w : String) (t u : CreationTask)
    → marked_running now w t ≡ ok u
    → (is_worker t.worker_task_id w ≡ true)
      × (holds_slot t.status ≡ true)
      × (u.status ≡ running)
      × (u.worker_task_id ≡ t.worker_task_id)
      × (u.worker_lease_expires_at ≡ (
          if is_running t.status
          then t.worker_lease_expires_at
          else some (now + seconds lease_ttl_seconds)))
unfolding marked_running refreshed
marked_running-owner now w t u h = ground arith

-- A lost row is given up after ten recoveries, and is queued with one more until then; either way it
-- has no worker and is not lost any more.
pub reclaimed-settles :
    (now : ℕ) (t : CreationTask)
    → let u = reclaimed now t in
      (u.status ≡ (if leb 10 t.recovery_count then failed else queued))
      × (u.recovery_count
          ≡ (if leb 10 t.recovery_count then t.recovery_count else suc t.recovery_count))
      × (u.worker_task_id ≡ none)
      × ((is_stale now u || is_orphaned now u) ≡ false)
unfolding reclaimed is_stale is_orphaned
reclaimed-settles now t = ground arith

abbrev pub lost : ℕ → CreationTask → Bool
lost now t = is_stale now t || is_orphaned now t

abbrev pub lost_of : ℕ → String → CreationTask → Bool
lost_of now uuid t = str_eq t.user_uuid uuid && lost now t

nothing_lost :
    (now : ℕ) (ts : List CreationTask)
    → count (lost now) (map (λ t. if lost now t then reclaimed now t else t) ts) ≡ 0
nothing_lost now [] = refl
nothing_lost now (t ∷ ts) = elim (Bool-cases (lost now t)) [
  | inl e ↦ rw e (rw (reclaimed-settles now t).3 (omega (arith, nothing_lost now ts)))
  | inr e ↦ rw e (rw e (omega (arith, nothing_lost now ts)))
]

length-++ : {A : Type 0} (xs ys : List A) → length (xs ++ ys) ≡ length xs + length ys
length-++ [] ys = omega arith
length-++ (x ∷ xs) ys = omega (arith, length-++ xs ys)

count-lost :
    (now : ℕ) (ts : List CreationTask)
    → count (is_stale now) ts + count (is_orphaned now) ts ≡ count (lost now) ts
unfolding is_stale is_orphaned
count-lost now [] = omega arith
count-lost now (t ∷ ts) = ground (arith, count-lost now ts)

slot_freed :
    (now : ℕ) (uuid : String) (t : CreationTask)
    → weight (in_slot_of uuid) (if lost now t then reclaimed now t else t)
        + weight (lost_of now uuid) t
      ≡ weight (in_slot_of uuid) t
unfolding is_stale is_orphaned reclaimed
slot_freed now uuid t = ground arith

slots_freed :
    (now : ℕ) (uuid : String) (ts : List CreationTask)
    → count (in_slot_of uuid) (map (λ t. if lost now t then reclaimed now t else t) ts)
        + count (lost_of now uuid) ts
      ≡ count (in_slot_of uuid) ts
slots_freed now uuid [] = omega arith
slots_freed now uuid (t ∷ ts) = omega (arith, slot_freed now uuid t, slots_freed now uuid ts)

-- A recovery tick leaves no task lost, returns how many were, and frees exactly the slots of those.
pub reclaim-clears :
    (now : ℕ) (uuid : String) (db : Db)
    → let r = reclaim_stale_running_tasks now db in
      (count (lost now) r.1.tasks ≡ 0)
      × (r.0 ≡ count (lost now) db.tasks)
      × (count_user_running_slots r.1 uuid + count (lost_of now uuid) db.tasks
          ≡ count_user_running_slots db uuid)
unfolding reclaim_stale_running_tasks count_user_running_slots
reclaim-clears now uuid db = (
  nothing_lost now db.tasks,
  omega (
    arith,
    length-++ (select (is_stale now) db.tasks) (select (is_orphaned now) db.tasks),
    length-select (is_stale now) db.tasks,
    length-select (is_orphaned now) db.tasks,
    count-lost now db.tasks,
  ),
  slots_freed now uuid db.tasks,
)
