-- ===== src/Scheduler/Operations.antt =====
-- The operations of app/services/scheduler/scheduler_service.py that a request or a worker makes:
-- each loads its row, changes it, and flushes.
use ai_jin_shu.Common.{
  ℕ, suc, not, ◌&&◌, Option, none, some, String, List, [], ◌∷◌, ◌++◌, str_eq, or_else, ◌==◌,
  if◌then◌else◌, Result, ok, err, ◌>>=◌,
}
use ai_jin_shu.Common.Int.{ℤ, pos, pos_part}
use ai_jin_shu.Common.Table.{find, put}
use ai_jin_shu.Json.{Json, Fields, obj, end, Numerals}
use ai_jin_shu.Budget.{Novel, of_novel}
use ai_jin_shu.Tasks.{
  Status, queued, Error, task_not_found, CreationTask, is_terminal, is_running, status_text,
}
use ai_jin_shu.Tasks.Transition.{Report}
use ai_jin_shu.Scheduler.Store.{Db, Effect, revoke, get_task_by_id, get_task_by_public_id, save}
use ai_jin_shu.Scheduler.Rows.{
  marked_running, pause_row, cancel_row, resume_row, finalize_row, refreshed, released,
  lease_ttl_seconds,
}
use ai_jin_shu.Scheduler.Progress.{Usage, progressed}

-- The arguments of `submit_task`, and the uuid that the column's default draws.
pub record Submission : Type 0 where
  pub public_id : String
  pub user_uuid : String
  pub task_type : String
  pub resource_type : String
  pub resource_id : ℕ
  pub payload : Option Fields
  pub priority : ℤ
  pub max_retries : ℤ

unfoldable pub new_task : ℕ → ℕ → Submission → CreationTask
new_task now i s = record {
  id = i;
  public_id = s.public_id;
  user_uuid = s.user_uuid;
  task_type = s.task_type;
  resource_type = s.resource_type;
  resource_id = s.resource_id;
  status = queued;
  priority = pos_part s.priority;
  queue_seq = some i;
  retry_count = 0;
  max_retries = pos_part s.max_retries;
  worker_task_id = none;
  phase = none;
  progress = 0;
  message = none;
  error_code = none;
  error_category = none;
  error_detail = none;
  payload_json = or_else s.payload end;
  result_json = obj end;
  resume_cursor_json = obj end;
  last_heartbeat_at = none;
  worker_lease_expires_at = none;
  recovery_count = 0;
  created_at = now;
  updated_at = now;
  started_at = none;
  finished_at = none;
}

-- `submit_task`: the id is the next value of the key's sequence.
unfoldable pub submit_task : ℕ → Submission → Db → CreationTask × Db
unfolding new_task
submit_task now s db =
    let t = new_task now db.next_id s in
    (t, record db { tasks = db.tasks ++ t ∷ []; next_id = suc db.next_id })

abbrev pub require : Option CreationTask → Result Error CreationTask
require none = err task_not_found
require (some t) = ok t

-- Load a row, or raise; change it, or raise; flush it.
abbrev pub change_row :
    ℕ
    → Option CreationTask
    → (CreationTask → Result Error CreationTask)
    → Db
    → Result Error (CreationTask × Db)
change_row now o f db = do t ← require o; u ← f t; ok (u, save now u db)

-- `mark_task_running` once the task is found: a running task is returned without a flush.
abbrev pub mark_found : ℕ → String → Db → CreationTask → Result Error (CreationTask × Db)
mark_found now w db t =
    marked_running now w t >>= λ u. ok (u, (if is_running t.status then db else save now u db))

-- `mark_task_running`
unfoldable pub mark_task_running : ℕ → ℕ → String → Db → Result Error (CreationTask × Db)
unfolding get_task_by_id marked_running save
mark_task_running now i w db = require (get_task_by_id db i) >>= mark_found now w db

-- `update_task_progress`; a missing task is no error.
unfoldable pub update_task_progress :
    Numerals → ℕ → ℕ → Usage → Db → Result Error (Option CreationTask × Db)
unfolding get_task_by_id progressed save
update_task_progress py now i a db = elim (get_task_by_id db i) [
  | none ↦ ok (none, db)
  | some t ↦ progressed py now a t >>= λ u. ok (some u, save now u db)
]

-- `heartbeat_task`: it asks for no status.
unfoldable pub heartbeat_task : ℕ → ℕ → Db → Option CreationTask × Db
unfolding get_task_by_id refreshed save
heartbeat_task now i db = elim (get_task_by_id db i) [
  | none ↦ (none, db)
  | some t ↦ (
    some (refreshed now (pos lease_ttl_seconds) t),
    save now (refreshed now (pos lease_ttl_seconds) t) db,
  )
]

-- `release_lease`
unfoldable pub release_lease : ℕ → ℕ → Db → Option CreationTask × Db
unfolding get_task_by_id released save
release_lease now i db = elim (get_task_by_id db i) [
  | none ↦ (none, db)
  | some t ↦ (some (released now t), save now (released now t) db)
]

-- The mirror of a final status in the novel's row.
unfoldable pub sync_novel_status : Status → CreationTask → List Novel → List Novel
sync_novel_status f t novels =
    if is_terminal f && str_eq t.resource_type "novel" && not (t.resource_id == 0)
    then elim (find (of_novel t.resource_id) novels) [
      | none ↦ novels
      | some n ↦ put (of_novel t.resource_id) (record n { status = status_text f }) novels
    ]
    else novels

-- The end of `finalize_task`; an early return, `none`, changes nothing.
abbrev pub settled : ℕ → Status → CreationTask → Db → Option CreationTask → Option CreationTask × Db
settled now f t db none = (some t, db)
settled now f t db (some u) =
    (some u, record (save now u db) { novels = sync_novel_status f u db.novels })

-- `finalize_task`
unfoldable pub finalize_task :
    ℕ → ℕ → Status → Report → Option Json → Db → Result Error (Option CreationTask × Db)
unfolding get_task_by_id finalize_row save sync_novel_status
finalize_task now i f r result db = elim (get_task_by_id db i) [
  | none ↦ ok (none, db)
  | some t ↦ finalize_row now f r result t >>= λ changed. ok (settled now f t db changed)
]

-- `pause_task`
unfoldable pub pause_task : ℕ → String → String → Db → Result Error (CreationTask × Db)
unfolding get_task_by_public_id pause_row save
pause_task now p user db =
    change_row now (get_task_by_public_id db p (some user)) (pause_row now) db

-- `resume_task`
unfoldable pub resume_task :
    Numerals → (Option ℤ → String) → ℕ → String → String → Db → Result Error (CreationTask × Db)
unfolding get_task_by_public_id resume_row save
resume_task py message now p user db =
    change_row now (get_task_by_public_id db p (some user)) (resume_row py message now) db

-- The revocation of the worker that a cancelled task had.
abbrev pub revocation : CreationTask → List Effect
revocation t = elim t.worker_task_id [
  | none ↦ []
  | some w ↦ if str_eq w "" then [] else revoke w ∷ []
]

-- `cancel_task` once the task is found: a terminal task is returned as it is.
abbrev pub cancel_found : ℕ → Db → CreationTask → Result Error (CreationTask × Db)
cancel_found now db t =
    if is_terminal t.status
    then ok (t, db)
    else cancel_row now t >>= λ u.
        ok (u, record (save now u db) { effects = db.effects ++ revocation t })

-- `cancel_task`
unfoldable pub cancel_task : ℕ → String → String → Db → Result Error (CreationTask × Db)
unfolding get_task_by_public_id cancel_row save
cancel_task now p user db = require (get_task_by_public_id db p (some user)) >>= cancel_found now db
