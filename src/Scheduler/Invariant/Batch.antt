-- ===== src/Scheduler/Invariant/Batch.antt =====
-- A whole reservation of app/services/scheduler/scheduler_service.py keeps the table sound, and
-- gives its user no slot above the concurrency limit.
use ai_jin_shu.Common.{
  ℕ, suc, zero, ◌+◌, ◌-◌, ◌≤◌, ◌≡◌, refl, ap, subst, min, true, none, some, String, List, [], ◌∷◌,
  ◌++◌, All, eq_iff, ok, >>=-eq-ok, ok-injective, length, length-take-le, take, select, arith,
  Bool-cases, Result-cases, inl, inr,
}
use ai_jin_shu.Common.Sorting.{All-sort_by}
use ai_jin_shu.Tasks.{CreationTask, failed, dispatching}
use ai_jin_shu.Tasks.Transition.{Report, transition_task_status}
use ai_jin_shu.Scheduler.Store.{Db, save, count_user_running_slots}
use ai_jin_shu.Scheduler.Rows.{report, unbound}
use ai_jin_shu.Scheduler.Rows.Keeps.{IsWell}
use ai_jin_shu.Scheduler.Payload.{prepare_worker_task_dispatch}
use ai_jin_shu.Scheduler.Queue.{waits_for, comes_first, next_queued}
use ai_jin_shu.Scheduler.Reservation.{
  Outside, DispatchReservation, reserve_one, prepare_or_fail, reserve_all, batch, limit_of, bound,
  failure, is_budget_hard_stopped, reservation,
}
use ai_jin_shu.Scheduler.Invariant.{IsOld, IsSound}
use ai_jin_shu.Scheduler.Invariant.Reserve.{
  Grants, Grants-trans, Grants-le, save-Grants, tasks-prepare,
}

same-Grants :
    (uuid : String) (db db' : Db)
    → (db'.tasks ≡ db.tasks) × (db'.next_id ≡ db.next_id)
    → Grants uuid 0 db db'
same-Grants uuid db db' h = record {
  sound = λ s. rw (h.0, h.1) s;
  next = h.1;
  slots = λ v. rw h.0 (omega arith);
}

-- A queued row of the user that stands in the table.
pub record IsReady (uuid : String) (n : ℕ) (t : CreationTask) : Type 0 where
  pub well : IsWell t
  pub old : IsOld n t
  pub waits : waits_for uuid t ≡ true

module _ (o : Outside) (uuid : String) where
  failed-Grants :
      (t u : CreationTask) (db : Db) (r : Report)
      → IsWell t
      → IsOld db.next_id t
      → t.user_uuid ≡ uuid
      → t.worker_task_id ≡ none
      → transition_task_status o.now t failed r ≡ ok u
      → Grants uuid 0 db (save o.now u db)
  unfolding transition_task_status
  failed-Grants t u db r w old e n h =
      save-Grants o.now uuid 0 u db (ground arith) (ground arith) (ground arith) (ground arith)

  prepare_or_fail-Grants :
      (t : CreationTask) (db db' : Db) (rs : List DispatchReservation)
      → IsWell t
      → IsOld db.next_id t
      → t.user_uuid ≡ uuid
      → prepare_or_fail o t db ≡ ok (rs, db')
      → Grants uuid 0 db db' × (length rs ≤ 1)
  unfolding prepare_or_fail
  prepare_or_fail-Grants t db db' rs w old e h =
      elim (Result-cases (prepare_worker_task_dispatch o.numerals t (o.fresh_worker t.id) db)) [
        | inl (d, m) ↦
            let same =
              ok-injective (reservation t (o.fresh_worker t.id) ∷ [], d) (rs, db')
                (rw (m, prepare_or_fail) at h) in
            (
              subst (Grants uuid 0 db) (ap (λ (x : List DispatchReservation × Db). x.1) same)
                  (same-Grants uuid db d (tasks-prepare o.numerals t (o.fresh_worker t.id) db d m)),
              subst (λ (x : List DispatchReservation × Db). length x.0 ≤ 1) same (omega arith),
            )
        | inr (x, m) ↦
            let (u, made, same) =
              >>=-eq-ok
                (transition_task_status o.now (unbound t) failed
                  (failure "任务派发失败" "DISPATCH_PAYLOAD_INVALID" "permanent" (some (o.describe x))))
                (λ u. ok ([], save o.now u db)) (rs, db') (rw (m, prepare_or_fail) at h) in
            let eq = ok-injective ([], save o.now u db) (rs, db') same in
            (
              subst (Grants uuid 0 db) (ap (λ (x : List DispatchReservation × Db). x.1) eq)
                  (failed-Grants (unbound t) u db _ (ground arith) old e refl made),
              subst (λ (x : List DispatchReservation × Db). length x.0 ≤ 1) eq (omega arith),
            )
      ]

  reserve_one-Grants :
      (t : CreationTask) (db db' : Db) (rs : List DispatchReservation)
      → IsReady uuid db.next_id t
      → reserve_one o t db ≡ ok (rs, db')
      → Grants uuid 1 db db' × (length rs ≤ 1)
  unfolding reserve_one transition_task_status save
  reserve_one-Grants t db db' rs y h = elim (Bool-cases (is_budget_hard_stopped o db t)) [
    | inl e ↦ absurd (ground (arith, y.waits))
    | inr e ↦
        let (u, made, same) =
          >>=-eq-ok (transition_task_status o.now t dispatching (report "dispatching" "任务调度中"))
            (λ u.
              prepare_or_fail o (bound o.now (o.fresh_worker t.id) u)
                (save o.now (bound o.now (o.fresh_worker t.id) u) db))
            (rs, db') (rw (e, reserve_one) at h) in
        let v = bound o.now (o.fresh_worker t.id) u in
        let owned : Grants uuid 1 db (save o.now v db) =
          save-Grants o.now uuid 1 v db (ground (arith, y.well)) (ground (arith, y.old))
            (ground (arith, y.waits, eq_iff t.user_uuid uuid)) (λ _. omega arith) in
        let (f, l) =
          prepare_or_fail-Grants v (save o.now v db) db' rs (ground (arith, y.well))
            (ground (arith, y.old)) (ground (arith, y.waits, eq_iff t.user_uuid uuid)) same in
        (Grants-trans uuid 1 0 db (save o.now v db) db' owned f, l)
  ]

  pub reserve_all-Grants :
      (ts : List CreationTask) (db db' : Db) (rs : List DispatchReservation)
      → All (IsReady uuid db.next_id) ts
      → reserve_all o ts db ≡ ok (rs, db')
      → Grants uuid (length ts) db db'
  unfolding reserve_all
  reserve_all-Grants [] db db' rs y h =
      subst (Grants uuid 0 db)
        (ap (λ (x : List DispatchReservation × Db). x.1) (ok-injective ([], db) (rs, db') h))
        (same-Grants uuid db db (refl, refl))
  reserve_all-Grants (t ∷ ts) db db' rs y h = elim (Result-cases (reserve_one o t db)) [
    | inr (x, m) ↦ absurd (ground (arith, m))
    | inl (f, m) ↦ elim (Result-cases (reserve_all o ts f.1)) [
      | inr (x, k) ↦ absurd (ground (arith, m, k))
      | inl (g, k) ↦
          let one = reserve_one-Grants t db f.1 f.0 y.0 m in
          let rest = reserve_all-Grants ts f.1 g.1 g.0 (rw one.0.next y.1) k in
          subst (Grants uuid (suc (length ts)) db)
            (ap (λ (x : List DispatchReservation × Db). x.1)
              (ok-injective (f.0 ++ g.0, g.1) (rs, db') (rw (reserve_all, m, k) at h)))
            (Grants-le uuid (1 + length ts) (suc (length ts)) db g.1 (omega arith)
              (Grants-trans uuid 1 (length ts) db f.1 g.1 one.0 rest))
    ]
  ]

-- What holds of all rows of the table holds of the batch.
module _ (P : CreationTask → Type 0) where
  All-take : (n : ℕ) (ts : List CreationTask) → All P ts → All P (take n ts)
  All-take zero ts h = tt
  All-take (suc n) [] h = h
  All-take (suc n) (t ∷ ts) h = (h.0, All-take n ts h.1)

select-IsReady :
    (uuid : String) (n : ℕ) (ts : List CreationTask)
    → All IsWell ts
    → All (IsOld n) ts
    → All (IsReady uuid n) (select (waits_for uuid) ts)
select-IsReady uuid n [] w o = tt
select-IsReady uuid n (t ∷ ts) w o = elim (Bool-cases (waits_for uuid t)) [
  | inl e ↦ rw e (record { well = w.0; old = o.0; waits = e }, select-IsReady uuid n ts w.1 o.1)
  | inr e ↦ rw e (select-IsReady uuid n ts w.1 o.1)
]

pub batch-IsReady :
    (o : Outside) (uuid : String) (db : Db)
    → IsSound db.tasks db.next_id
    → All (IsReady uuid db.next_id) (batch o uuid db)
unfolding batch next_queued
batch-IsReady o uuid db s = All-take (IsReady uuid db.next_id) _ _ (
    All-sort_by comes_first (IsReady uuid db.next_id) _
      (select-IsReady uuid db.next_id db.tasks s.rows s.old))

-- A batch is no longer than the user's free slots, and than five.
pub batch-fits :
    (o : Outside) (uuid : String) (db : Db)
    → length (batch o uuid db) ≤ min (limit_of o uuid db - count_user_running_slots db uuid) 5
unfolding batch next_queued
batch-fits o uuid db = length-take-le _ _
