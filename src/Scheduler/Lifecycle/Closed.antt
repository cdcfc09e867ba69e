-- ===== src/Scheduler/Lifecycle/Closed.antt =====
-- Completed and cancelled tasks in app/services/scheduler/scheduler_service.py: only a finalization
-- back to the queue changes their status.
use ai_jin_shu.Common.{
  ℕ, ◌≡◌, Bool, true, false, Option, String, ok, err, if◌then◌else◌, ◌||◌, none, arith,
}
use ai_jin_shu.Common.Int.{ℤ}
use ai_jin_shu.Json.{Json, Numerals}
use ai_jin_shu.Tasks.{
  CreationTask, Status, completed, cancelled, task_not_active, task_not_resumable,
  task_not_dispatching, worker_not_owner, illegal_transition, is_queued,
}
use ai_jin_shu.Tasks.Transition.{Report, transition_task_status}
use ai_jin_shu.Scheduler.Rows.{
  marked_running, pause_row, cancel_row, resume_row, finalize_row, is_worker,
}
use ai_jin_shu.Scheduler.Recovery.{needs_repair, is_stale, is_orphaned}

abbrev pub is_closed : Status → Bool
is_closed completed = true
is_closed cancelled = true
is_closed s = false

-- Every way to another status is refused, or passes the row over.
pub record IsFinal (py : Numerals) (message : Option ℤ → String) (now : ℕ) (to f : Status)
    (r : Report) (w : String) (result : Option Json) (t : CreationTask) : Type 0 where
  pub no_transition : transition_task_status now t to r ≡ err (illegal_transition t.status to)
  pub no_start :
      marked_running now w t
      ≡ err (if is_worker t.worker_task_id w then task_not_dispatching else worker_not_owner)
  pub no_pause : pause_row now t ≡ err task_not_active
  pub no_resume : resume_row py message now t ≡ err task_not_resumable
  pub no_cancel : cancel_row now t ≡ ok t
  pub no_report : finalize_row now f r result t ≡ ok none
  pub no_repair : needs_repair now t ≡ false
  pub no_reclaim : (is_stale now t || is_orphaned now t) ≡ false

-- On a completed or cancelled task every transition is refused, as are its start, its pause and its
-- resumption; a cancellation returns it as it is, a finalization to anything but `queued` is
-- ignored, and the recovery tick does not select it.
pub closed-IsFinal :
    (py : Numerals) (message : Option ℤ → String) (now : ℕ) (to f : Status) (r : Report)
    (w : String) (result : Option Json) (t : CreationTask)
    → is_closed t.status ≡ true
    → is_queued f ≡ false
    → IsFinal py message now to f r w result t
unfolding transition_task_status marked_running pause_row resume_row cancel_row finalize_row
    needs_repair is_stale is_orphaned
closed-IsFinal py message now to f r w result t h k = ground arith
