-- ===== src/Scheduler/Rows/Keeps.antt =====
-- What every operation on a task row keeps, in app/services/scheduler/scheduler_service.py.
use ai_jin_shu.Common.{ℕ, ◌≤◌, ◌≡◌, true, not, ◌||◌, Option, some, String, is_some, ok, arith}
use ai_jin_shu.Common.Int.{ℤ}
use ai_jin_shu.Json.{Json, Numerals}
use ai_jin_shu.Tasks.{Status, CreationTask, holds_slot}
use ai_jin_shu.Tasks.Transition.{Report, hundred, transition_task_status}
use ai_jin_shu.Scheduler.Rows.{
  marked_running, pause_row, cancel_row, resume_row, finalize_row, refreshed, released,
}
use ai_jin_shu.Scheduler.Progress.{Usage, progressed}
use ai_jin_shu.Scheduler.Recovery.{repaired, reclaimed, max_recovery_count, needs_repair}

-- A well-formed row: only a task that is dispatching or running has a worker, and the counters and
-- the progress stay in their bounds.
pub record IsWell (t : CreationTask) : Type 0 where
  pub worker_active : (not (is_some t.worker_task_id) || holds_slot t.status) ≡ true
  pub retries : t.retry_count ≤ t.max_retries
  pub recoveries : t.recovery_count ≤ max_recovery_count
  pub percent : t.progress ≤ hundred

-- `u` is a new value of the row `t` that takes no slot which `t` did not hold.
pub record Keeps (t u : CreationTask) : Type 0 where
  pub same_id : u.id ≡ t.id
  pub same_user : u.user_uuid ≡ t.user_uuid
  pub well : IsWell t → IsWell u
  pub slot : holds_slot u.status ≡ true → holds_slot t.status ≡ true

pub marked_running-Keeps :
    (now : ℕ) (w : String) (t u : CreationTask) → marked_running now w t ≡ ok u → Keeps t u
unfolding marked_running
marked_running-Keeps now w t u h = ground arith

pub refreshed-Keeps : (now : ℕ) (ttl : ℤ) (t : CreationTask) → Keeps t (refreshed now ttl t)
unfolding refreshed
refreshed-Keeps now ttl t = ground arith

pub released-Keeps : (now : ℕ) (t : CreationTask) → Keeps t (released now t)
unfolding released
released-Keeps now t = ground arith

pub finalize_row-Keeps :
    (now : ℕ) (f : Status) (r : Report) (result : Option Json) (t u : CreationTask)
    → finalize_row now f r result t ≡ ok (some u)
    → Keeps t u
unfolding finalize_row
finalize_row-Keeps now f r result t u h = ground arith

pub pause_row-Keeps : (now : ℕ) (t u : CreationTask) → pause_row now t ≡ ok u → Keeps t u
unfolding pause_row transition_task_status
pause_row-Keeps now t u h = ground arith

pub cancel_row-Keeps : (now : ℕ) (t u : CreationTask) → cancel_row now t ≡ ok u → Keeps t u
unfolding cancel_row transition_task_status
cancel_row-Keeps now t u h = ground arith

module _ (py : Numerals) (message : Option ℤ → String) where
  pub resume_row-Keeps :
      (now : ℕ) (t u : CreationTask) → resume_row py message now t ≡ ok u → Keeps t u
  unfolding resume_row transition_task_status
  resume_row-Keeps now t u h = ground arith

pub progressed-Keeps :
    (py : Numerals) (now : ℕ) (a : Usage) (t u : CreationTask)
    → progressed py now a t ≡ ok u
    → Keeps t u
unfolding progressed
progressed-Keeps py now a t u h = ground arith

pub repaired-Keeps :
    (now : ℕ) (t : CreationTask) → needs_repair now t ≡ true → Keeps t (repaired now t)
unfolding needs_repair repaired
repaired-Keeps now t h = ground arith

pub reclaimed-Keeps : (now : ℕ) (t : CreationTask) → Keeps t (reclaimed now t)
unfolding reclaimed
reclaimed-Keeps now t = ground arith
