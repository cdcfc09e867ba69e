-- ===== src/Tasks/Transition.antt =====
-- The status table of a task: `transition_task_status` of
-- app/services/scheduler/scheduler_service.py, and the optional fields that it and `finalize_task`
-- write.
pub mod Runs
use ai_jin_shu.Common.{
  ℕ, ◌*◌, min, ◌≡◌, refl, Bool, true, false, not, Option, none, some, String, or_else,
  if◌then◌else◌, arith,
}
use ai_jin_shu.Common.{Result, ok, err}
use ai_jin_shu.Common.Int.{ℤ, pos_part}
use ai_jin_shu.Tasks.{
  Status, queued, dispatching, running, paused, completed, failed, cancelled, other, Error,
  illegal_transition, CreationTask, is_terminal, is_running,
}

-- The optional arguments that update a row: `None` leaves the column alone.
pub record Report : Type 0 where
  pub phase : Option String
  pub message : Option String
  pub progress : Option ℤ
  pub error_code : Option String
  pub error_category : Option String
  pub error_detail : Option String

-- `if value is not None: column = value`
abbrev pub write {ℓ} : {A : Type ℓ} → Option A → Option A → Option A
write none old = old
write (some v) old = some v

abbrev pub hundred : ℕ
hundred = 100 * 1000000

-- `float(max(0.0, min(100.0, progress)))`
unfoldable pub clamp_progress : Option ℤ → ℕ → ℕ
clamp_progress none old = old
clamp_progress (some p) old = min hundred (pos_part p)

unfoldable pub apply_report : Report → CreationTask → CreationTask
unfolding clamp_progress
apply_report r t = record t {
  progress = clamp_progress r.progress t.progress;
  phase = write r.phase t.phase;
  message = write r.message t.message;
  error_code = write r.error_code t.error_code;
  error_category = write r.error_category t.error_category;
  error_detail = write r.error_detail t.error_detail;
}

-- The table `allowed`; a status outside it allows nothing.
unfoldable pub allowed : Status → Status → Bool
allowed queued dispatching = true
allowed queued paused = true
allowed queued cancelled = true
allowed dispatching running = true
allowed dispatching paused = true
allowed dispatching cancelled = true
allowed dispatching queued = true
allowed dispatching failed = true
allowed running paused = true
allowed running completed = true
allowed running failed = true
allowed running cancelled = true
allowed paused queued = true
allowed paused cancelled = true
allowed failed queued = true
allowed failed cancelled = true
allowed s t = false

-- The writes of a transition that the table allows.
unfoldable pub moved : ℕ → CreationTask → Status → Report → CreationTask
unfolding apply_report
moved now t to r =
    let u = apply_report r (record t { status = to }) in
    record u {
      started_at = if is_running to then some (or_else u.started_at now) else u.started_at;
      finished_at = if is_terminal to then some now else u.finished_at;
    }

unfoldable pub transition_task_status :
    ℕ → CreationTask → Status → Report → Result Error CreationTask
unfolding allowed moved
transition_task_status now t to r =
    if allowed t.status to then ok (moved now t to r) else err (illegal_transition t.status to)
