-- ===== src/Scheduler/Invariant/Bulk.antt =====
-- The submission and the recovery tick of app/services/scheduler/scheduler_service.py keep the
-- table sound and give no user a slot.
use ai_jin_shu.Common.{
  ℕ, suc, ◌≤◌, ◌≡◌, refl, ◌||◌, List, [], ◌∷◌, ◌++◌, map, All, String, arith, Bool-cases, inl, inr,
  if◌then◌else◌,
}
use ai_jin_shu.Common.Table.{weight, All-map, All-append_one, count-map-le, count-append_one}
use ai_jin_shu.Tasks.{CreationTask}
use ai_jin_shu.Scheduler.Store.{Db, in_slot_of}
use ai_jin_shu.Scheduler.Rows.Keeps.{IsWell, Keeps, repaired-Keeps, reclaimed-Keeps}
use ai_jin_shu.Scheduler.Operations.{Submission, new_task, submit_task}
use ai_jin_shu.Scheduler.Recovery.{
  needs_repair, repaired, repair_active_dispatching_tasks, is_stale, is_orphaned, reclaimed,
  reclaim_stale_running_tasks,
}
use ai_jin_shu.Scheduler.Invariant.{HasOther, DistinctIds, IsOld, IsSound, NoMoreSlots, IsQuiet}

Keeps-refl : (t : CreationTask) → Keeps t t
Keeps-refl t = record { same_id = refl; same_user = refl; well = λ w. w; slot = λ h. h }

weight-le :
    (uuid : String) (t u : CreationTask)
    → Keeps t u
    → weight (in_slot_of uuid) u ≤ weight (in_slot_of uuid) t
weight-le uuid t u k = rw k.same_user (ground arith)

module _ (f : CreationTask → CreationTask) (keeps : (t : CreationTask) → Keeps t (f t)) where
  map-HasOther :
      (t : CreationTask) (ts : List CreationTask)
      → All (HasOther t) ts
      → All (HasOther (f t)) (map f ts)
  map-HasOther t [] h = h
  map-HasOther t (u ∷ us) h = (rw ((keeps t).same_id, (keeps u).same_id) h.0, map-HasOther t us h.1)

  map-DistinctIds : (ts : List CreationTask) → DistinctIds ts → DistinctIds (map f ts)
  map-DistinctIds [] h = h
  map-DistinctIds (t ∷ ts) h = (map-HasOther t ts h.0, map-DistinctIds ts h.1)

  map-IsSound : (ts : List CreationTask) (n : ℕ) → IsSound ts n → IsSound (map f ts) n
  map-IsSound ts n s = record {
    rows = All-map IsWell f ts (λ t. (keeps t).well) s.rows;
    distinct = map-DistinctIds ts s.distinct;
    old = All-map (IsOld n) f ts (λ t h. rw (keeps t).same_id h) s.old;
  }

  map-NoMoreSlots : (ts : List CreationTask) → NoMoreSlots (map f ts) ts
  map-NoMoreSlots ts uuid =
      count-map-le (in_slot_of uuid) f ts (λ t. weight-le uuid t (f t) (keeps t))

module _ (now : ℕ) (db : Db) where
  repair-Keeps : (t : CreationTask) → Keeps t (if needs_repair now t then repaired now t else t)
  repair-Keeps t = elim (Bool-cases (needs_repair now t)) [
    | inl e ↦ rw e (repaired-Keeps now t e)
    | inr e ↦ rw e (Keeps-refl t)
  ]

  pub repair-IsQuiet : IsQuiet db (repair_active_dispatching_tasks now db).1
  unfolding repair_active_dispatching_tasks
  repair-IsQuiet s =
      (map-IsSound _ repair-Keeps db.tasks db.next_id s, map-NoMoreSlots _ repair-Keeps db.tasks)

  reclaim-Keeps :
      (t : CreationTask)
      → Keeps t (if is_stale now t || is_orphaned now t then reclaimed now t else t)
  reclaim-Keeps t = elim (Bool-cases (is_stale now t || is_orphaned now t)) [
    | inl e ↦ rw e (reclaimed-Keeps now t)
    | inr e ↦ rw e (Keeps-refl t)
  ]

  pub reclaim-IsQuiet : IsQuiet db (reclaim_stale_running_tasks now db).1
  unfolding reclaim_stale_running_tasks
  reclaim-IsQuiet s =
      (map-IsSound _ reclaim-Keeps db.tasks db.next_id s, map-NoMoreSlots _ reclaim-Keeps db.tasks)

append-DistinctIds :
    (n : ℕ) (t : CreationTask) (ts : List CreationTask)
    → t.id ≡ n
    → All (IsOld n) ts
    → DistinctIds ts
    → DistinctIds (ts ++ t ∷ [])
append-DistinctIds n t [] e o h = (tt, tt)
append-DistinctIds n t (u ∷ us) e o h = (
  All-append_one (HasOther u) t us h.0 (ground (arith, o.0)),
  append-DistinctIds n t us e o.1 h.1,
)

IsOld-suc : (n : ℕ) (ts : List CreationTask) → All (IsOld n) ts → All (IsOld (suc n)) ts
IsOld-suc n [] h = h
IsOld-suc n (t ∷ ts) h = (omega arith, IsOld-suc n ts h.1)

new_task-IsWell : (now i : ℕ) (s : Submission) → IsWell (new_task now i s)
unfolding new_task
new_task-IsWell now i s = ground arith

pub submit_task-IsQuiet : (now : ℕ) (s : Submission) (db : Db) → IsQuiet db (submit_task now s db).1
unfolding submit_task
submit_task-IsQuiet now s db h =
    let t = new_task now db.next_id s in
    (
      record {
        rows = All-append_one IsWell t db.tasks h.rows (new_task-IsWell now db.next_id s);
        distinct = append-DistinctIds db.next_id t db.tasks refl h.old h.distinct;
        old =
            All-append_one (IsOld (suc db.next_id)) t db.tasks (IsOld-suc db.next_id db.tasks h.old)
              (omega arith);
      },
      λ uuid. ground (arith, count-append_one (in_slot_of uuid) t db.tasks),
    )
