-- ===== src/Scheduler/Recovery.antt =====
-- The recovery tick of app/services/scheduler/scheduler_service.py:
-- `repair_active_dispatching_tasks` and `reclaim_stale_running_tasks`. Each selects its rows first
-- and then changes them one by one, all at the time `now`.
use ai_jin_shu.Common.{
  first_some, ℕ, suc, ◌+◌, Bool, false, not, ◌&&◌, ◌||◌, Option, none, some, String, List, [], ◌∷◌,
  ◌++◌, map, str_eq, ltb, leb, is_some, or_else, select, length, if◌then◌else◌,
}
use ai_jin_shu.Tasks.{
  queued, running, failed, CreationTask, holds_slot, is_dispatching, is_novel_generation,
  is_terminal, seconds,
}
use ai_jin_shu.Scheduler.Store.{Db, Effect, revoke, snapshot, sync_novel}
use ai_jin_shu.Scheduler.Rows.{unbound}

-- `expires is not None and expires >= now`
abbrev pub lease_holds : ℕ → Option ℕ → Bool
lease_holds now none = false
lease_holds now (some e) = leb now e

-- `expires is not None and expires < now`
abbrev pub lease_over : ℕ → Option ℕ → Bool
lease_over now none = false
lease_over now (some e) = ltb e now

-- The rows of `repair_active_dispatching_tasks`.
unfoldable pub needs_repair : ℕ → CreationTask → Bool
needs_repair now t =
    is_dispatching t.status
    && is_some t.worker_task_id
    && is_some t.last_heartbeat_at
    && lease_holds now t.worker_lease_expires_at

unfoldable pub repaired : ℕ → CreationTask → CreationTask
repaired now t = record t {
  status = running;
  started_at = some (or_else (first_some t.started_at t.last_heartbeat_at) now);
  updated_at = now;
}

abbrev pub snapshots : List CreationTask → List Effect
snapshots [] = []
snapshots (t ∷ ts) =
    let rest = snapshots ts in if is_novel_generation t then snapshot t none ∷ rest else rest

-- `repair_active_dispatching_tasks`
unfoldable pub repair_active_dispatching_tasks : ℕ → Db → ℕ × Db
unfolding needs_repair repaired
repair_active_dispatching_tasks now db =
    let rows = select (needs_repair now) db.tasks in
    (
      length rows,
      record db {
        tasks = map (λ t. if needs_repair now t then repaired now t else t) db.tasks;
        effects = db.effects ++ snapshots (map (repaired now) rows);
      },
    )

-- The two selections of `reclaim_stale_running_tasks`.
unfoldable pub is_stale : ℕ → CreationTask → Bool
is_stale now t = holds_slot t.status && lease_over now t.worker_lease_expires_at

unfoldable pub is_orphaned : ℕ → CreationTask → Bool
is_orphaned now t =
    is_dispatching t.status
    && not (is_some t.worker_lease_expires_at)
    && ltb (t.updated_at + seconds 120) now

-- MAX_RECOVERY_COUNT
abbrev pub max_recovery_count : ℕ
max_recovery_count = 10

-- The new value of a selected row: given up after the last recovery, or queued again.
unfoldable pub reclaimed : ℕ → CreationTask → CreationTask
reclaimed now t =
    if leb max_recovery_count t.recovery_count
    then record (unbound t) {
      status = failed;
      phase = some "failed";
      finished_at = some now;
      error_code = some "MAX_RECOVERIES_EXCEEDED";
      error_category = some "permanent";
      message = some "任务自动恢复次数超限（10次），已标记失败";
      updated_at = now;
    }
    else record (unbound t) {
      status = queued;
      phase = some "queued";
      message = some "任务自动恢复：检测到worker中断，已重新入队";
      recovery_count = suc t.recovery_count;
      finished_at = none;
      updated_at = now;
    }

-- The workers of the selected rows; the empty text is no worker.
abbrev pub real_worker : Option String → Option String
real_worker none = none
real_worker (some w) = if str_eq w "" then none else some w

abbrev pub revocations : List CreationTask → List Effect
revocations [] = []
revocations (t ∷ ts) =
    let rest = revocations ts in
    elim (real_worker t.worker_task_id) [ none ↦ rest | some w ↦ revoke w ∷ rest ]

-- Redis: the snapshot of a novel's row, and of the novel if the row is not active any more.
abbrev pub cleanups : ℕ → List CreationTask → List Effect
cleanups now [] = []
cleanups now (t ∷ ts) =
    let rest = cleanups now ts in
    let u = reclaimed now t in
    if is_novel_generation t
    then snapshot u (real_worker t.worker_task_id)
      ∷ (if is_terminal u.status then sync_novel u.resource_id ∷ rest else rest)
    else rest

-- `reclaim_stale_running_tasks`
unfoldable pub reclaim_stale_running_tasks : ℕ → Db → ℕ × Db
unfolding is_stale is_orphaned reclaimed
reclaim_stale_running_tasks now db =
    let rows = select (is_stale now) db.tasks ++ select (is_orphaned now) db.tasks in
    (
      length rows,
      record db {
        tasks =
            map (λ t. if is_stale now t || is_orphaned now t then reclaimed now t else t) db.tasks;
        effects = db.effects ++ (revocations rows ++ cleanups now rows);
      },
    )
