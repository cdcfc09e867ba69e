-- ===== src/Scheduler/Store.antt =====
-- The tables that the scheduler reads and writes, and the messages that it sends beside them.
-- A session's transaction is one function on `Db`: an error stands for its rollback. The row locks
-- of `with_for_update` are the sequence of the transactions.
use ai_jin_shu.Common.{
  ℕ, Bool, true, ◌&&◌, Option, none, some, String, List, ◌==◌, str_eq, if◌then◌else◌,
}
use ai_jin_shu.Common.Int.{ℤ}
use ai_jin_shu.Common.Table.{find, put, count}
use ai_jin_shu.Tasks.{CreationTask, holds_slot}
use ai_jin_shu.Flags.{Reading}
use ai_jin_shu.Budget.{Novel, AgentEvent}
use ai_jin_shu.Quota.{User, UserQuota}

-- The columns of `generation_tasks` that the scheduler writes.
pub record GenerationTask : Type 0 where
  pub task_id : String
  pub novel_id : ℤ
  pub status : String
  pub run_state : String
  pub current_phase : String
  pub total_chapters : ℤ
  pub num_chapters : ℤ
  pub start_chapter : ℤ
  pub message : String
  pub error : Option String
  pub error_code : Option String
  pub error_category : Option String

pub record RewriteRequest : Type 0 where
  pub id : ℕ
  pub task_id : Option String
  pub status : String
  pub message : String

-- The storyboard tables and `novel_versions`, which dispatching reads.
pub record Project : Type 0 where
  pub id : ℤ
  pub novel_id : ℤ

pub record BoardRow : Type 0 where
  pub id : ℤ
  pub project_id : ℤ
  pub run_id : ℤ
  pub lane : String

pub record Boards : Type 0 where
  pub projects : List Project
  pub runs : List BoardRow
  pub run_lanes : List BoardRow
  pub versions : List BoardRow
  pub tasks : List BoardRow
  pub novel_versions : List Project

-- What leaves the process: the revocation of a worker, and a snapshot of a task row for Redis with
-- the worker keys that it clears.
pub data Effect : Type 0 where
  revoke : String → Effect
  snapshot : CreationTask → Option String → Effect
  sync_novel : ℕ → Effect

pub record Db : Type 0 where
  pub tasks : List CreationTask
  pub next_id : ℕ
  pub novels : List Novel
  pub generation_tasks : List GenerationTask
  pub rewrites : List RewriteRequest
  pub boards : Boards
  pub users : List User
  pub quotas : List UserQuota
  pub events : Option (List AgentEvent)
  pub flags : Reading
  pub effects : List Effect

abbrev pub has_id : ℕ → CreationTask → Bool
has_id i t = t.id == i

-- `get_task_by_id`
unfoldable pub get_task_by_id : Db → ℕ → Option CreationTask
get_task_by_id db i = find (has_id i) db.tasks

-- The condition of `get_task_by_public_id`; an empty user is no condition.
abbrev pub is_public : String → Option String → CreationTask → Bool
is_public p none t = str_eq t.public_id p
is_public p (some u) t =
    str_eq t.public_id p && (if str_eq u "" then true else str_eq t.user_uuid u)

-- `get_task_by_public_id`
unfoldable pub get_task_by_public_id : Db → String → Option String → Option CreationTask
get_task_by_public_id db p user = find (is_public p user) db.tasks

-- A flush of one changed row: `updated_at` is set by its column's `onupdate`.
unfoldable pub save : ℕ → CreationTask → Db → Db
save now t db = record db { tasks = put (has_id t.id) (record t { updated_at = now }) db.tasks }

abbrev pub in_slot_of : String → CreationTask → Bool
in_slot_of uuid t = str_eq t.user_uuid uuid && holds_slot t.status

-- `count_user_running_slots`
unfoldable pub count_user_running_slots : Db → String → ℕ
count_user_running_slots db uuid = count (in_slot_of uuid) db.tasks
