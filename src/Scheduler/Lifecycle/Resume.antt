-- ===== src/Scheduler/Lifecycle/Resume.antt =====
-- `pause_task` and `resume_task` of app/services/scheduler/scheduler_service.py.
use ai_jin_shu.Common.{
  ℕ, ◌≡◌, refl, true, false, Option, String, ok, none, some, arith, str_eq, eq_iff, if◌then◌else◌,
}
use ai_jin_shu.Common.Int.{ℤ}
use ai_jin_shu.Json.{Json, Fields, num, obj, get, set_key, as_dict, Numerals}
use ai_jin_shu.Json.Merge.{get-set_key}
use ai_jin_shu.Tasks.{CreationTask, queued, paused, is_pausable, is_failed}
use ai_jin_shu.Tasks.Transition.{transition_task_status, moved}
use ai_jin_shu.Scheduler.Rows.{
  pause_row, resume_row, resume_cursor, next_unit, bump, report, unbound, pause_message,
}

-- What stays of a task over a pause and a resumption.
pub record IsSameWork (t v : CreationTask) : Type 0 where
  pub status : v.status ≡ queued
  pub worker : v.worker_task_id ≡ none
  pub lease : v.worker_lease_expires_at ≡ none
  pub id : v.id ≡ t.id
  pub public : v.public_id ≡ t.public_id
  pub type_of_task : v.task_type ≡ t.task_type
  pub type_of_resource : v.resource_type ≡ t.resource_type
  pub resource : v.resource_id ≡ t.resource_id
  pub priority : v.priority ≡ t.priority
  pub limit : v.max_retries ≡ t.max_retries
  pub result : v.result_json ≡ t.result_json
  pub recoveries : v.recovery_count ≡ t.recovery_count
  pub created : v.created_at ≡ t.created_at
  pub user : v.user_uuid ≡ t.user_uuid
  pub payload : v.payload_json ≡ t.payload_json
  pub progress : v.progress ≡ t.progress
  pub retries : v.retry_count ≡ t.retry_count
  pub place : v.queue_seq ≡ t.queue_seq

abbrev resumed : ℕ → String → Option ℤ → CreationTask → CreationTask
resumed now message next u = record (unbound (moved now u queued (report "queued" message))) {
  resume_cursor_json = resume_cursor next u.resume_cursor_json;
  retry_count = if is_failed u.status then bump u.retry_count u.max_retries else u.retry_count;
}

resumed-ok :
    (py : Numerals) (message : Option ℤ → String) (now : ℕ) (u : CreationTask) (next : Option ℤ)
    → u.status ≡ paused
    → next_unit py u.resume_cursor_json ≡ ok next
    → resume_row py message now u ≡ ok (resumed now (message next) next u)
unfolding resume_row transition_task_status
resumed-ok py message now u next h e = rw (resume_row, h, e) (ground arith)

-- The runtime state within a cursor.
abbrev pub runtime : Json → Fields
runtime cursor = as_dict (get "runtime_state" (as_dict cursor))

-- The cursor that a resumption writes: `retry_resume_chapter` of the runtime state is the next unit
-- if there is one, and each other key of the runtime state and of the cursor reads as before.
pub resume_cursor-get :
    (next : Option ℤ) (cursor : Json) (k j : String)
    → str_eq k "runtime_state" ≡ false
    → str_eq j "retry_resume_chapter" ≡ false
    → let after = resume_cursor next cursor in
      (get "retry_resume_chapter" (runtime after)
        ≡ elim next [ none ↦ get "retry_resume_chapter" (runtime cursor) | some n ↦ num n ])
      × (get j (runtime after) ≡ get j (runtime cursor))
      × (get k (as_dict after) ≡ get k (as_dict cursor))
unfolding resume_cursor
resume_cursor-get none cursor k j h e =
    let state = runtime cursor in
    (
      ground (arith, get-set_key "runtime_state" "runtime_state" (obj state) (as_dict cursor)),
      ground (arith, get-set_key "runtime_state" "runtime_state" (obj state) (as_dict cursor)),
      ground (
        arith,
        get-set_key "runtime_state" k (obj state) (as_dict cursor),
        eq_iff "runtime_state" k,
        eq_iff k "runtime_state",
      ),
    )
resume_cursor-get (some n) cursor k j h e =
    let state = runtime cursor in
    let inner = set_key "retry_resume_chapter" (num n) state in
    (
      ground (
        arith,
        get-set_key "runtime_state" "runtime_state" (obj inner) (as_dict cursor),
        get-set_key "retry_resume_chapter" "retry_resume_chapter" (num n) state,
      ),
      ground (
        arith,
        get-set_key "runtime_state" "runtime_state" (obj inner) (as_dict cursor),
        get-set_key "retry_resume_chapter" j (num n) state,
        eq_iff "retry_resume_chapter" j,
        eq_iff j "retry_resume_chapter",
      ),
      ground (
        arith,
        get-set_key "runtime_state" k (obj inner) (as_dict cursor),
        eq_iff "runtime_state" k,
        eq_iff k "runtime_state",
      ),
    )

-- A task that is queued, dispatching or running, and whose cursor can be read, can be paused and
-- then resumed: it waits again at its old place in the queue, with its priority, its payload, its
-- progress and its retries. `retry_resume_chapter` in the runtime state of its cursor is then the
-- next unit, if the cursor has one, and each other key of the runtime state and of the cursor reads
-- as before.
pub pause-resume :
    (py : Numerals) (message : Option ℤ → String) (now later : ℕ) (t : CreationTask)
    (next : Option ℤ) (k j : String)
    → is_pausable t.status ≡ true
    → next_unit py t.resume_cursor_json ≡ ok next
    → str_eq k "runtime_state" ≡ false
    → str_eq j "retry_resume_chapter" ≡ false
    → (u : CreationTask) × (v : CreationTask) × (pause_row now t ≡ ok u)
      × (resume_row py message later u ≡ ok v)
      × IsSameWork t v
      × (get "retry_resume_chapter" (runtime v.resume_cursor_json) ≡ elim next [
        | none ↦ get "retry_resume_chapter" (runtime t.resume_cursor_json)
        | some n ↦ num n
      ])
      × (get j (runtime v.resume_cursor_json) ≡ get j (runtime t.resume_cursor_json))
      × (get k (as_dict v.resume_cursor_json) ≡ get k (as_dict t.resume_cursor_json))
unfolding pause_row resume_row transition_task_status
pause-resume py message now later t next k j h e other key =
    let u = unbound (moved now t paused (report "paused" (pause_message t.status))) in
    let v = resumed later (message next) next u in
    let kept = resume_cursor-get next t.resume_cursor_json k j other key in
    (
      u,
      v,
      ground arith,
      resumed-ok py message later u next refl e,
      ground arith,
      kept.0,
      kept.1,
      kept.2,
    )
