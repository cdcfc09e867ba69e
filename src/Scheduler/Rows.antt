-- ===== src/Scheduler/Rows.antt =====
-- The scheduler's operations on one task row, as
-- app/services/scheduler/scheduler_service.py makes them once the row is loaded.
pub mod Keeps
use ai_jin_shu.Common.{
  ℕ, suc, ◌+◌, ◌<◌, max, Bool, true, false, not, ◌&&◌, ◌||◌, Option, none, some, String, List, ltb,
  leb, is_some, or_else, str_eq, if◌then◌else◌, Result, ok, err, ◌>>=◌, ◌>>◌, guard,
}
use ai_jin_shu.Common.Int.{ℤ, pos, pos_part, ◌+ℤ◌}
use ai_jin_shu.Json.{
  Json, null, num, real, obj, Fields, get, set_key, as_dict, is_null, Numerals, to_int, int_or_zero,
  float_or_zero,
}
use ai_jin_shu.Tasks.{
  Status, queued, dispatching, running, paused, completed, failed, cancelled, other, Error,
  task_not_dispatching, worker_not_owner, task_not_active, task_not_pausable, task_not_resumable,
  bad_number, unsupported_final_status, CreationTask, is_terminal, is_pausable, is_resumable,
  is_queued, is_running, is_dispatching, is_failed, seconds,
}
use ai_jin_shu.Tasks.Transition.{
  Report, write, clamp_progress, apply_report, transition_task_status,
}

-- CREATION_WORKER_LEASE_TTL_SECONDS
abbrev pub lease_ttl_seconds : ℕ
lease_ttl_seconds = 300

-- `acquire_or_refresh_lease` of app/services/task_runtime/lease_service.py
unfoldable pub refreshed : ℕ → ℤ → CreationTask → CreationTask
refreshed now ttl t = record t {
  last_heartbeat_at = some now;
  worker_lease_expires_at = some (now + seconds (max 5 (pos_part ttl)));
}

-- `release_lease` of the same file
unfoldable pub released : ℕ → CreationTask → CreationTask
released now t = record t { last_heartbeat_at = some now; worker_lease_expires_at = none }

abbrev pub is_worker : Option String → String → Bool
is_worker none w = false
is_worker (some v) w = str_eq v w

-- `task.worker_task_id = None` and `task.worker_lease_expires_at = None`
abbrev pub unbound : CreationTask → CreationTask
unbound t = record t { worker_task_id = none; worker_lease_expires_at = none }

-- `mark_task_running`
unfoldable pub marked_running : ℕ → String → CreationTask → Result Error CreationTask
unfolding refreshed
marked_running now w t =
    if not (is_worker t.worker_task_id w)
    then err worker_not_owner
    else if is_running t.status
    then ok t
    else if not (is_dispatching t.status)
    then err task_not_dispatching
    else ok (
        refreshed now (pos lease_ttl_seconds) (record t {
          status = running;
          started_at = some (or_else t.started_at now);
          error_code = none;
          error_category = none;
          error_detail = none;
        }))

abbrev pub report : String → String → Report
report phase message = record {
  phase = some phase;
  message = some message;
  progress = none;
  error_code = none;
  error_category = none;
  error_detail = none;
}

-- The message of a pause.
abbrev pub pause_message : Status → String
pause_message s = if is_running s then "任务暂停中，等待安全挂起" else "任务已暂停"

-- `pause_task`
unfoldable pub pause_row : ℕ → CreationTask → Result Error CreationTask
pause_row now t =
    if is_terminal t.status
    then err task_not_active
    else if not (is_pausable t.status)
    then err task_not_pausable
    else do
      u ← transition_task_status now t paused (report "paused" (pause_message t.status))
      ok (unbound u)

-- `cancel_task` on its row.
unfoldable pub cancel_row : ℕ → CreationTask → Result Error CreationTask
cancel_row now t =
    if is_terminal t.status
    then ok t
    else do u ← transition_task_status now t cancelled (report "cancelled" "任务已取消"); ok (unbound u)

abbrev pub bump : ℕ → ℕ → ℕ
bump count limit = if ltb count limit then count + 1 else count

-- The resume cursor after `resume_task`: the floor for retries under `runtime_state`.
unfoldable pub resume_cursor : Option ℤ → Json → Json
resume_cursor next cursor =
    let payload = as_dict cursor in
    let state = as_dict (get "runtime_state" payload) in
    obj (
      set_key "runtime_state"
        (obj (elim next [ none ↦ state | some n ↦ set_key "retry_resume_chapter" (num n) state ]))
        payload)

-- `next_unit`: the entry `next` of the cursor, which must be a number if it is there.
abbrev pub next_unit : Numerals → Json → Result Error (Option ℤ)
next_unit py cursor =
    let v = get "next" (as_dict cursor) in
    if is_null v
    then ok none
    else elim (to_int py v) [ none ↦ err bad_number | some z ↦ ok (some z) ]

module _ (py : Numerals) (resume_message : Option ℤ → String) where
  -- `resume_task`; `resume_message` writes the message for the next unit.
  unfoldable pub resume_row : ℕ → CreationTask → Result Error CreationTask
  unfolding resume_cursor
  resume_row now t = if not (is_resumable t.status) then err task_not_resumable else do
    next ← next_unit py t.resume_cursor_json
    u ← transition_task_status now t queued (report "queued" (resume_message next))
    ok (record (unbound u) {
      resume_cursor_json = resume_cursor next t.resume_cursor_json;
      retry_count = if is_failed t.status then bump t.retry_count t.max_retries else t.retry_count;
    })

-- The values that `finalize_task` accepts for `final_status`.
abbrev pub is_final : Status → Bool
is_final queued = true
is_final paused = true
is_final completed = true
is_final failed = true
is_final cancelled = true
is_final s = false

-- The early returns of `finalize_task`, in their order: both sides terminal, a stale report on a
-- task that was queued again, and a task that no worker holds.
unfoldable pub is_stale_finalize : Status → Status → Bool
is_stale_finalize s f =
    (is_terminal s && is_terminal f)
    || (is_queued s && not (is_queued f))
    || (not (is_running s || is_dispatching s || is_queued s) && not (is_queued f))

-- The writes by the final status.
abbrev pub settle : ℕ → Status → CreationTask → CreationTask
settle now queued t = record (unbound t) {
  status = queued;
  finished_at = none;
  retry_count = bump t.retry_count t.max_retries;
}
settle now paused t = record (unbound t) { status = paused }
settle now f t = record (unbound t) { status = f; finished_at = some now }

-- All writes of `finalize_task`.
abbrev pub ended : ℕ → Status → Report → Option Json → CreationTask → CreationTask
ended now f r result t =
    let u = apply_report r (settle now f t) in
    record u { result_json = or_else result u.result_json }

-- `finalize_task` on the row; `none` is an early return.
unfoldable pub finalize_row :
    ℕ → Status → Report → Option Json → CreationTask → Result Error (Option CreationTask)
unfolding is_stale_finalize apply_report
finalize_row now f r result t =
    if is_stale_finalize t.status f
    then ok none
    else if not (is_final f)
    then err (unsupported_final_status f)
    else ok (some (ended now f r result t))
