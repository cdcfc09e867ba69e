-- ===== src/Scheduler/Invariant/Reach.antt =====
-- The scheduler of app/services/scheduler/scheduler_service.py as a machine: every committed
-- transaction is a step between databases, in any order, and whatever else writes to the database
-- leaves `creation_tasks` alone.
use ai_jin_shu.Common.{
  ℕ, ◌≤◌, ◌≡◌, inl, inr, Option, String, ok, str_eq, eq_iff, subst, arith, Bool-cases,
}
use ai_jin_shu.Common.Int.{ℤ}
use ai_jin_shu.Json.{Json, Numerals}
use ai_jin_shu.Tasks.{CreationTask, Status}
use ai_jin_shu.Tasks.Transition.{Report}
use ai_jin_shu.Scheduler.Store.{Db, count_user_running_slots}
use ai_jin_shu.Scheduler.Progress.{Usage}
use ai_jin_shu.Scheduler.Operations.{
  Submission, submit_task, mark_task_running, update_task_progress, heartbeat_task, release_lease,
  finalize_task, pause_task, resume_task, cancel_task,
}
use ai_jin_shu.Scheduler.Recovery.{repair_active_dispatching_tasks, reclaim_stale_running_tasks}
use ai_jin_shu.Scheduler.Dispatch.{dispatch_user_queue_for_user}
use ai_jin_shu.Scheduler.Reservation.{Outside, limit_of, locked}
use ai_jin_shu.Scheduler.Invariant.{IsSound, IsQuiet}
use ai_jin_shu.Scheduler.Invariant.Single.{
  mark_task_running-IsQuiet, update_task_progress-IsQuiet, heartbeat_task-IsQuiet,
  release_lease-IsQuiet, finalize_task-IsQuiet, pause_task-IsQuiet, resume_task-IsQuiet,
  cancel_task-IsQuiet,
}
use ai_jin_shu.Scheduler.Invariant.Bulk.{repair-IsQuiet, reclaim-IsQuiet, submit_task-IsQuiet}
use ai_jin_shu.Scheduler.Invariant.Capacity.{IsWithin, dispatch_user_queue_for_user-IsWithin}

-- One transaction, where the limit that a dispatch reads for its user is at most `limit`.
pub data Step (limit : String → ℕ) : Db → Db → Type 0 where
  submits : (now : ℕ) (s : Submission) (db : Db) → Step limit db (submit_task now s db).1
  starts :
      (now i : ℕ) (w : String) (v : CreationTask) (db db' : Db)
      → mark_task_running now i w db ≡ ok (v, db')
      → Step limit db db'
  progresses :
      (py : Numerals) (now i : ℕ) (a : Usage) (v : Option CreationTask) (db db' : Db)
      → update_task_progress py now i a db ≡ ok (v, db')
      → Step limit db db'
  heartbeats : (now i : ℕ) (db : Db) → Step limit db (heartbeat_task now i db).1
  releases : (now i : ℕ) (db : Db) → Step limit db (release_lease now i db).1
  finalizes :
      (now i : ℕ) (f : Status) (r : Report) (result : Option Json) (v : Option CreationTask)
      (db db' : Db)
      → finalize_task now i f r result db ≡ ok (v, db')
      → Step limit db db'
  pauses :
      (now : ℕ) (p user : String) (v : CreationTask) (db db' : Db)
      → pause_task now p user db ≡ ok (v, db')
      → Step limit db db'
  resumes :
      (py : Numerals) (message : Option ℤ → String) (now : ℕ) (p user : String) (v : CreationTask)
      (db db' : Db)
      → resume_task py message now p user db ≡ ok (v, db')
      → Step limit db db'
  cancels :
      (now : ℕ) (p user : String) (v : CreationTask) (db db' : Db)
      → cancel_task now p user db ≡ ok (v, db')
      → Step limit db db'
  repairs : (now : ℕ) (db : Db) → Step limit db (repair_active_dispatching_tasks now db).1
  reclaims : (now : ℕ) (db : Db) → Step limit db (reclaim_stale_running_tasks now db).1
  dispatches :
      (o : Outside) (detail uuid : String) (db : Db)
      → limit_of o uuid (locked o uuid db) ≤ limit uuid
      → Step limit db (dispatch_user_queue_for_user o detail uuid db).1
  elsewhere : (db db' : Db) → db'.tasks ≡ db.tasks → db'.next_id ≡ db.next_id → Step limit db db'

pub data Reach (limit : String → ℕ) : Db → Db → Type 0 where
  stays : (db : Db) → Reach limit db db
  goes_on : (a b c : Db) → Step limit a b → Reach limit b c → Reach limit a c

-- The table is sound and nobody uses more slots than the limit.
pub record IsSafe (limit : String → ℕ) (db : Db) : Type 0 where
  pub sound : IsSound db.tasks db.next_id
  pub slots : (v : String) → count_user_running_slots db v ≤ limit v

quiet-IsSafe : (limit : String → ℕ) (a b : Db) → IsQuiet a b → IsSafe limit a → IsSafe limit b
unfolding count_user_running_slots
quiet-IsSafe limit a b q s =
    let (s', less) = q s.sound in
    record { sound = s'; slots = λ v. omega (arith, less v, s.slots v) }

dispatched-IsSafe :
    (limit : String → ℕ) (l : ℕ) (uuid : String) (a b : Db)
    → l ≤ limit uuid
    → IsWithin l uuid a b
    → IsSafe limit a
    → IsSafe limit b
dispatched-IsSafe limit l uuid a b le w s = record {
  sound = w.sound;
  slots = λ v. elim (Bool-cases (str_eq uuid v)) [
    | inl e ↦
        let same : uuid ≡ v = (eq_iff uuid v).0 e in
        subst (λ x. count_user_running_slots b x ≤ limit x) same
          (omega (arith, w.own, s.slots uuid, le))
    | inr e ↦ omega (arith, rw e at (w.started v), s.slots v)
  ];
}

Step-IsSafe : (limit : String → ℕ) (a b : Db) → Step limit a b → IsSafe limit a → IsSafe limit b
Step-IsSafe limit a b (submits now s _) h = quiet-IsSafe limit a _ (submit_task-IsQuiet now s a) h
Step-IsSafe limit a b (starts now i w v _ _ e) h =
    quiet-IsSafe limit a b (mark_task_running-IsQuiet now a b i w v e) h
Step-IsSafe limit a b (progresses py now i u v _ _ e) h =
    quiet-IsSafe limit a b (update_task_progress-IsQuiet now a b py i u v e) h
Step-IsSafe limit a b (heartbeats now i _) h =
    quiet-IsSafe limit a _ (heartbeat_task-IsQuiet now a a i) h
Step-IsSafe limit a b (releases now i _) h =
    quiet-IsSafe limit a _ (release_lease-IsQuiet now a a i) h
Step-IsSafe limit a b (finalizes now i f r result v _ _ e) h =
    quiet-IsSafe limit a b (finalize_task-IsQuiet now a b i f r result v e) h
Step-IsSafe limit a b (pauses now p user v _ _ e) h =
    quiet-IsSafe limit a b (pause_task-IsQuiet now a b p user v e) h
Step-IsSafe limit a b (resumes py message now p user v _ _ e) h =
    quiet-IsSafe limit a b (resume_task-IsQuiet now a b py message p user v e) h
Step-IsSafe limit a b (cancels now p user v _ _ e) h =
    quiet-IsSafe limit a b (cancel_task-IsQuiet now a b p user v e) h
Step-IsSafe limit a b (repairs now _) h = quiet-IsSafe limit a _ (repair-IsQuiet now a) h
Step-IsSafe limit a b (reclaims now _) h = quiet-IsSafe limit a _ (reclaim-IsQuiet now a) h
Step-IsSafe limit a b (dispatches o detail uuid _ le) h =
    dispatched-IsSafe limit (limit_of o uuid (locked o uuid a)) uuid a _ le
      (dispatch_user_queue_for_user-IsWithin o detail uuid a h.sound) h
Step-IsSafe limit a b (elsewhere _ _ t n) h =
    quiet-IsSafe limit a b (λ s. (rw (t, n) s, λ v. rw t (omega arith))) h

-- From a safe database every database that the scheduler's transactions reach, in any order, is
-- safe, if each dispatch reads at most `limit` for its user and nothing else writes to the table of
-- tasks: ids are distinct, only tasks that are dispatching or running have a worker, the counters and
-- the progress stay in their bounds, and no user has more slots in use than `limit`.
pub reachable-IsSafe :
    (limit : String → ℕ) (a b : Db) → Reach limit a b → IsSafe limit a → IsSafe limit b
reachable-IsSafe limit a b (stays _) h = h
reachable-IsSafe limit a b (goes_on _ m _ s r) h =
    reachable-IsSafe limit m b r (Step-IsSafe limit a m s h)
