-- ===== src/Scheduler/Invariant/Capacity.antt =====
-- `_reserve_dispatch_batch`, `_requeue_failed_dispatch` and `dispatch_user_queue_for_user` of
-- app/services/scheduler/scheduler_service.py and the concurrency limit of a user.
use ai_jin_shu.Common.{
  ℕ, ◌+◌, ◌≤◌, ◌≡◌, ◌⊎◌, subst, max, Bool, true, false, some, String, List, [], ◌∷◌, str_eq, Result,
  ok, >>=-eq-ok, ok-injective, arith, Bool-cases, Option-cases, Result-cases, inl, inr,
  if◌then◌else◌, ◌&&◌, eq_refl,
}
use ai_jin_shu.Common.Table.{find}
use ai_jin_shu.Tasks.{CreationTask, Error, queued, is_dispatching, is_novel_generation}
use ai_jin_shu.Tasks.Transition.{Report, transition_task_status}
use ai_jin_shu.Scheduler.Store.{Db, has_id, save, get_task_by_id, count_user_running_slots}
use ai_jin_shu.Scheduler.Rows.{unbound, is_worker}
use ai_jin_shu.Scheduler.Rows.Keeps.{Keeps}
use ai_jin_shu.Scheduler.Dispatch.{
  requeue_failed_dispatch, requeue_row, requeued, publish_failed, publish_all, publishes,
  dispatch_user_queue_for_user,
}
use ai_jin_shu.Scheduler.Reservation.{
  Outside, DispatchReservation, reserve_all, reserve_dispatch_batch, batch, locked, limit_of,
}
use ai_jin_shu.Scheduler.Invariant.{IsSound, IsQuiet, save-IsQuiet, IsQuiet-refl}
use ai_jin_shu.Scheduler.Invariant.Batch.{reserve_all-Grants, batch-IsReady, batch-fits}

either :
    (b : Bool) (m : Result Error (List DispatchReservation × Db))
    (x r : List DispatchReservation × Db)
    → (if b then m else ok x) ≡ ok r
    → (m ≡ ok r) ⊎ (x ≡ r)
either true m x r h = inl h
either false m x r h = inr (ok-injective x r h)

-- What a dispatch for the user promises of the database after it: the table is sound, the user has
-- at most five more slots in use and the other users no more, and the user has no more than the
-- limit, or than before.
pub record IsWithin (limit : ℕ) (uuid : String) (db db' : Db) : Type 0 where
  pub sound : IsSound db'.tasks db'.next_id
  pub started :
      (v : String)
      → count_user_running_slots db' v
        ≤ count_user_running_slots db v + (if str_eq uuid v then 5 else 0)
  pub own : count_user_running_slots db' uuid ≤ max (count_user_running_slots db uuid) limit

IsWithin-refl :
    (limit : ℕ) (uuid : String) (db : Db) → IsSound db.tasks db.next_id → IsWithin limit uuid db db
IsWithin-refl limit uuid db s = record { sound = s; started = λ v. omega arith; own = omega arith }

IsWithin-quiet :
    (limit : ℕ) (uuid : String) (a b c : Db)
    → IsWithin limit uuid a b
    → IsQuiet b c
    → IsWithin limit uuid a c
unfolding count_user_running_slots
IsWithin-quiet limit uuid a b c w q =
    let (s, less) = q w.sound in
    record {
      sound = s;
      started = λ v. omega (arith, less v, w.started v);
      own = omega (arith, less uuid, w.own);
    }

reserve_dispatch_batch-IsWithin :
    (o : Outside) (uuid : String) (db db' : Db) (rs : List DispatchReservation)
    → IsSound db.tasks db.next_id
    → reserve_dispatch_batch o uuid db ≡ ok (rs, db')
    → IsWithin (limit_of o uuid (locked o uuid db)) uuid db db'
unfolding reserve_dispatch_batch count_user_running_slots
reserve_dispatch_batch-IsWithin o uuid db db' rs sound h =
    let start = locked o uuid db in
    elim (either o.creation_scheduler_enabled (reserve_all o (batch o uuid start) start) ([], db)
      (rs, db') h) [
        | inr e ↦
            subst
              (λ (x : List DispatchReservation × Db). IsWithin (limit_of o uuid start) uuid db x.1)
              e (IsWithin-refl (limit_of o uuid start) uuid db sound)
        | inl e ↦
            let g =
              reserve_all-Grants o uuid (batch o uuid start) start db' rs
                (batch-IsReady o uuid start sound) e in
            let own = rw (eq_refl uuid) at (g.slots uuid) in
            record {
              sound = g.sound sound;
              started = λ v. ground (arith, g.slots v, batch-fits o uuid start);
              own = omega (arith, own, batch-fits o uuid start);
            }
      ]

requeued-Keeps :
    (now : ℕ) (r : Report) (t u : CreationTask)
    → transition_task_status now t queued r ≡ ok u
    → Keeps t (unbound u)
unfolding transition_task_status
requeued-Keeps now r t u h = ground arith

requeued-IsQuiet :
    (now : ℕ) (detail : String) (r : DispatchReservation) (t u : CreationTask) (db : Db)
    → IsQuiet db (save now (unbound u) db)
    → IsQuiet db (requeued now detail r t u db)
requeued-IsQuiet now detail r t u db q = elim (Bool-cases (is_novel_generation t)) [
  | inl g ↦ rw g q
  | inr g ↦ rw g q
]

requeue_row-IsQuiet :
    (now : ℕ) (detail : String) (r : DispatchReservation) (t : CreationTask) (db db' : Db)
    → find (has_id r.creation_task_id) db.tasks ≡ some t
    → requeue_row now detail r t db ≡ ok db'
    → IsQuiet db db'
requeue_row-IsQuiet now detail r t db db' f h =
    elim (Bool-cases (is_dispatching t.status && is_worker t.worker_task_id r.worker_task_id)) [
      | inr e ↦ subst (IsQuiet db) (ok-injective db db' (rw e at h)) (IsQuiet-refl db)
      | inl e ↦
          let (u, made, same) =
            >>=-eq-ok (transition_task_status now t queued (publish_failed (some detail)))
              (λ u. ok (requeued now detail r t u db)) db' (rw e at h) in
          subst (IsQuiet db) (ok-injective (requeued now detail r t u db) db' same) (
            requeued-IsQuiet now detail r t u db (
              save-IsQuiet now (has_id r.creation_task_id) t (unbound u) db f
                (requeued-Keeps now (publish_failed (some detail)) t u made)))
    ]

pub requeue_failed_dispatch-IsQuiet :
    (now : ℕ) (detail : String) (r : DispatchReservation) (db : Db)
    → IsQuiet db (requeue_failed_dispatch now detail r db)
unfolding requeue_failed_dispatch get_task_by_id
requeue_failed_dispatch-IsQuiet now detail r db =
    elim (Option-cases (find (has_id r.creation_task_id) db.tasks)) [
      | inl e ↦ rw (requeue_failed_dispatch, e) (IsQuiet-refl db)
      | inr (t, e) ↦ elim (Result-cases (requeue_row now detail r t db)) [
        | inl (d, m) ↦
            rw (requeue_failed_dispatch, e, m) (requeue_row-IsQuiet now detail r t db d e m)
        | inr (x, m) ↦ rw (requeue_failed_dispatch, e, m) (IsQuiet-refl db)
      ]
    ]

IsQuiet-trans : (a b c : Db) → IsQuiet a b → IsQuiet b c → IsQuiet a c
IsQuiet-trans a b c f g s =
    let (s', l) = f s in let (s'', m) = g s' in (s'', λ v. omega (arith, l v, m v))

publish_all-IsQuiet :
    (o : Outside) (detail : String) (rs : List DispatchReservation) (db : Db)
    → IsQuiet db (publish_all o detail rs db)
unfolding publish_all
publish_all-IsQuiet o detail [] db = IsQuiet-refl db
publish_all-IsQuiet o detail (r ∷ rs) db = elim (Bool-cases (publishes o r)) [
  | inl e ↦ rw (publish_all, e) (publish_all-IsQuiet o detail rs db)
  | inr e ↦
      let d = requeue_failed_dispatch o.now detail r db in
      rw (publish_all, e)
        (IsQuiet-trans db d (publish_all o detail rs d)
          (requeue_failed_dispatch-IsQuiet o.now detail r db) (publish_all-IsQuiet o detail rs d))
]

-- A dispatch of a user's queue on a sound table, whether its payloads pass their checks, the broker
-- takes its messages or an exception rolls it back, keeps the table sound, starts at most five
-- tasks, gives the other users no slot, and raises the user's slots at most to the limit.
pub dispatch_user_queue_for_user-IsWithin :
    (o : Outside) (detail uuid : String) (db : Db)
    → IsSound db.tasks db.next_id
    → IsWithin
        (limit_of o uuid (locked o uuid db))
        uuid
        db
        (dispatch_user_queue_for_user o detail uuid db).1
unfolding dispatch_user_queue_for_user
dispatch_user_queue_for_user-IsWithin o detail uuid db sound =
    elim (Result-cases (reserve_dispatch_batch o uuid db)) [
      | inr (x, m) ↦ rw (dispatch_user_queue_for_user, m) (IsWithin-refl _ uuid db sound)
      | inl (r, m) ↦
          rw (dispatch_user_queue_for_user, m)
            (IsWithin-quiet (limit_of o uuid (locked o uuid db)) uuid db r.1 _
              (reserve_dispatch_batch-IsWithin o uuid db r.1 r.0 sound m)
              (publish_all-IsQuiet o detail r.0 _))
    ]
