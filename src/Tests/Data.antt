-- ===== src/Tests/Data.antt =====
-- The inputs of the runs: a user with a queued and a running task, and the world around them.
use ai_jin_shu.Common.{ℕ, true, false, Option, none, some, String, [], ◌∷◌}
use ai_jin_shu.Common.Int.{ℤ, pos}
use ai_jin_shu.Json.{num, obj, Fields, end, field, Numerals}
use ai_jin_shu.Tasks.{CreationTask, queued, running, completed}
use ai_jin_shu.Tasks.Transition.{Report}
use ai_jin_shu.Budget.{Novel, AgentEvent}
use ai_jin_shu.Flags.{FlagRow}
use ai_jin_shu.Scheduler.Store.{Db}
use ai_jin_shu.Scheduler.Reservation.{Outside}

abbrev pub py : Numerals
py = record { int_of = λ _. none; float_of = λ _. none }

abbrev pub payload : Fields
payload = field "novel_id" (num (pos 7)) (
    field "novel_version_id" (num (pos 1))
      (field "num_chapters" (num (pos 10)) (field "start_chapter" (num (pos 1)) end)))

-- A queued task with the given id.
abbrev pub waiting : ℕ → CreationTask
waiting i = record {
  id = i;
  public_id = "p";
  user_uuid = "u1";
  task_type = "generation";
  resource_type = "novel";
  resource_id = 7;
  status = queued;
  priority = 100;
  queue_seq = some i;
  retry_count = 0;
  max_retries = 3;
  worker_task_id = none;
  phase = none;
  progress = 0;
  message = none;
  error_code = none;
  error_category = none;
  error_detail = none;
  payload_json = payload;
  result_json = obj end;
  resume_cursor_json = obj (field "next" (num (pos 4)) end);
  last_heartbeat_at = none;
  worker_lease_expires_at = none;
  recovery_count = 0;
  created_at = 0;
  updated_at = 0;
  started_at = none;
  finished_at = none;
}

abbrev pub busy : CreationTask
busy = record (waiting 2) {
  status = running;
  worker_task_id = some "w2";
  worker_lease_expires_at = some 5;
}

abbrev pub done : CreationTask
done = record (waiting 3) { status = completed }

-- The novel with a budget of one dollar, and an event that has spent it.
abbrev pub priced : Novel
priced = record {
  id = 7;
  status = "generating";
  config = obj (field "cost_budget" (obj (field "usd" (num (pos 1)) end)) end);
}

abbrev pub spending : AgentEvent
spending = record { novel_id = 7; payload = obj (field "cost_usd" (num (pos 2)) end) }

abbrev pub enforced : FlagRow
enforced = record {
  name = "cost.budget_enforcement";
  state = record { enabled = true; rollout_pct = 0; novel_allowlist = []; extra = end };
}

abbrev pub db : Db
db = record {
  tasks = waiting 1 ∷ busy ∷ [];
  next_id = 3;
  novels = priced ∷ [];
  generation_tasks = [];
  rewrites = [];
  boards = record {
    projects = [];
    runs = [];
    run_lanes = [];
    versions = [];
    tasks = [];
    novel_versions = [];
  };
  users = [];
  quotas = [];
  events = some (spending ∷ []);
  flags = some [];
  effects = [];
}

abbrev pub quiet_report : Report
quiet_report = record {
  phase = none;
  message = none;
  progress = none;
  error_code = none;
  error_category = none;
  error_detail = none;
}

-- The default limit of three tasks; no hash is small, and the broker takes nothing.
abbrev pub outside : Outside
outside = record {
  now = 1000;
  creation_scheduler_enabled = true;
  creation_default_max_concurrent_tasks = pos 3;
  digest = λ i. 99;
  numerals = py;
  fresh_worker = λ i. "w";
  describe = λ e. "error";
  broker_takes = λ r. false;
}

abbrev pub says : Option ℤ → String
says n = "resumed"
