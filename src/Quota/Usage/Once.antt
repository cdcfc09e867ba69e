-- ===== src/Quota/Usage/Once.antt =====
-- The number of rows that the ledger has of a task.
use ai_jin_shu.Common.{
  ◌≤◌, ◌≡◌, subst, Option, none, some, String, List, [], ◌∷◌, ◌++◌, str_eq, eq_iff, Result, ok, err,
  ◌>>=◌, arith, Bool-cases, Option-cases, inl, inr,
}
use ai_jin_shu.Common.Table.{find, count, count-none, count-put, count-append_one}
use ai_jin_shu.Json.{Numerals}
use ai_jin_shu.Tasks.{CreationTask}
use ai_jin_shu.Quota.{User, UsageLedger}
use ai_jin_shu.Quota.Usage.{
  TaskUsage, UsageCall, latest, record_for, reports_on, owner_of, usage_of, has_task, with_usage,
  new_entry, write_usage, record_generation_usage,
}
use ai_jin_shu.Quota.Usage.Ledger.{kept, written_new, written_old, recorded_in, record_all}

module _ (k : String) where
  once_new :
      (c : UsageCall) (owner : User) (u : TaskUsage) (ledger : List UsageLedger)
      → find (has_task c.task_id) ledger ≡ none
      → count (has_task k) ledger ≤ 1
      → count (has_task k) (ledger ++ new_entry c owner u ∷ []) ≤ 1
  once_new c owner u ledger e h = elim (Bool-cases (str_eq c.task_id k)) [
    | inl same ↦
        let no_row =
          subst (λ j. count (has_task j) ledger ≡ 0) ((eq_iff c.task_id k).0 same)
            (count-none (has_task c.task_id) ledger e) in
        ground (arith, same, no_row, count-append_one (has_task k) (new_entry c owner u) ledger)
    | inr other ↦ ground (arith, other, count-append_one (has_task k) (new_entry c owner u) ledger)
  ]

  once-write_usage :
      (c : UsageCall) (owner : User) (u : TaskUsage) (ledger : List UsageLedger)
      → count (has_task k) ledger ≤ 1
      → count (has_task k) (write_usage c owner u ledger) ≤ 1
  once-write_usage c owner u ledger h = elim (Option-cases (find (has_task c.task_id) ledger)) [
    | inl e ↦ rw (written_new c owner u ledger e) (once_new c owner u ledger e h)
    | inr (r, e) ↦
        rw (written_old c owner u ledger r e)
          (omega (arith, count-put (has_task c.task_id) (has_task k) (with_usage u r) ledger r e))
  ]

  once-record_for :
      (py : Numerals) (c : UsageCall) (ledger : List UsageLedger) (t : Option CreationTask)
      (o : Option User)
      → count (has_task k) ledger ≤ 1
      → count (has_task k) (kept ledger (record_for py c ledger t o)) ≤ 1
  once-record_for py c ledger none o h = h
  once-record_for py c ledger (some t) none h = h
  once-record_for py c ledger (some t) (some owner) h = settled (usage_of py t)
    where
      settled :
          (r : Result String TaskUsage)
          → count (has_task k) (kept ledger (r >>= λ u. ok (write_usage c owner u ledger))) ≤ 1
      settled (ok u) = once-write_usage c owner u ledger h
      settled (err e) = h

  -- Whatever the calls, a ledger that has at most one row of a task goes on to have at most one, so
  -- that the usage of a task counts once against the quota.
  pub record_all-once :
      (py : Numerals) (cs : List UsageCall) (ledger : List UsageLedger)
      → count (has_task k) ledger ≤ 1
      → count (has_task k) (record_all py cs ledger) ≤ 1
  unfolding record_all recorded_in record_generation_usage
  record_all-once py [] ledger h = h
  record_all-once py (c ∷ cs) ledger h =
      record_all-once py cs (recorded_in py c ledger)
        (once-record_for py c ledger (latest (reports_on c) c.tasks) (owner_of c) h)
