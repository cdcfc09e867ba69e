-- ===== src/Quota/Usage/Ledger.antt =====
-- The ledger as a map from a task to its last reported usage.
use ai_jin_shu.Common.{
  ◌≡◌, ◌∙◌, refl, ap, subst, true, false, Option, none, some, String, List, [], ◌∷◌, ◌++◌, str_eq,
  eq_iff, eq_refl, if◌then◌else◌, Result, ok, err, ◌>>=◌, arith, Bool-cases, Option-cases, inl, inr,
}
use ai_jin_shu.Common.Table.{find, put, find-passes, find-put_self, find-put_other, find-append_one}
use ai_jin_shu.Json.{Numerals}
use ai_jin_shu.Tasks.{CreationTask}
use ai_jin_shu.Quota.{User, UsageLedger}
use ai_jin_shu.Quota.Usage.{
  TaskUsage, UsageCall, latest, record_for, reports_on, owner_of, usage_of, has_task, with_usage,
  new_entry, write_usage, record_generation_usage,
}

-- What a reader of the ledger sees of a task.
abbrev pub entry : Option UsageLedger → Option TaskUsage
entry none = none
entry (some r) = some (record {
  input_tokens = r.input_tokens;
  output_tokens = r.output_tokens;
  billable_tokens = r.billable_tokens;
  chapters_generated = r.chapters_generated;
  estimated_cost = r.estimated_cost;
})

unfoldable pub view : List UsageLedger → String → Option TaskUsage
view ledger k = entry (find (has_task k) ledger)

-- The map with a new value at one task.
abbrev pub update : (String → Option TaskUsage) → String → TaskUsage → String → Option TaskUsage
update f k u j = if str_eq k j then some u else f j

module _ (c : UsageCall) (owner : User) (u : TaskUsage) (ledger : List UsageLedger) where
  pub written_new :
      find (has_task c.task_id) ledger ≡ none
      → write_usage c owner u ledger ≡ ledger ++ new_entry c owner u ∷ []
  unfolding write_usage
  written_new e = rw (write_usage, e) refl

  pub written_old :
      (r : UsageLedger)
      → find (has_task c.task_id) ledger ≡ some r
      → write_usage c owner u ledger ≡ put (has_task c.task_id) (with_usage u r) ledger
  unfolding write_usage
  written_old r e = rw (write_usage, e) refl

  view-write_self : view (write_usage c owner u ledger) c.task_id ≡ some u
  unfolding view
  view-write_self = elim (Option-cases (find (has_task c.task_id) ledger)) [
    | inl e ↦ rw (written_new e) (
        rw (find-append_one (has_task c.task_id) (new_entry c owner u) ledger)
          (rw e (rw (eq_refl c.task_id) refl)))
    | inr (r, e) ↦ rw (written_old r e) (
        rw
          (find-put_self (has_task c.task_id) (with_usage u r) ledger r e
            (find-passes (has_task c.task_id) ledger r e))
          refl)
  ]

  -- Another task's row is found where it was.
  found_other :
      (j : String) (r : UsageLedger)
      → str_eq c.task_id j ≡ false
      → has_task c.task_id r ≡ true
      → has_task j r ≡ false
  found_other j r h g =
      ground (arith, eq_iff r.task_id c.task_id, eq_iff r.task_id j, eq_iff c.task_id j)

  view-write_other :
      (j : String)
      → str_eq c.task_id j ≡ false
      → view (write_usage c owner u ledger) j ≡ view ledger j
  unfolding view
  view-write_other j h = elim (Option-cases (find (has_task c.task_id) ledger)) [
    | inl e ↦
        rw (written_new e)
          (rw (find-append_one (has_task j) (new_entry c owner u) ledger) (ground (arith, h)))
    | inr (r, e) ↦ rw (written_old r e) (
        ap entry (
          find-put_other (has_task c.task_id) (has_task j) (with_usage u r) ledger r e
            (found_other j r h (find-passes (has_task c.task_id) ledger r e))
            (found_other j r h (find-passes (has_task c.task_id) ledger r e))))
  ]

  view-write_usage :
      (j : String) → view (write_usage c owner u ledger) j ≡ update (view ledger) c.task_id u j
  view-write_usage j = elim (Bool-cases (str_eq c.task_id j)) [
    | inl e ↦ rw e (
        subst (λ k. view (write_usage c owner u ledger) k ≡ some u) ((eq_iff c.task_id j).0 e)
          view-write_self)
    | inr e ↦ rw e (view-write_other j e)
  ]

abbrev read_ok : Result String TaskUsage → Option TaskUsage
read_ok (ok u) = some u
read_ok (err e) = none

abbrev reported_for : Numerals → Option CreationTask → Option User → Option TaskUsage
reported_for py none owner = none
reported_for py (some t) none = none
reported_for py (some t) (some owner) = read_ok (usage_of py t)

-- The usage that a call puts into the ledger: that of the latest task of its id and novel, when the
-- novel has an owner and the task's numbers can be read.
abbrev pub reported : Numerals → UsageCall → Option TaskUsage
reported py c = reported_for py (latest (reports_on c) c.tasks) (owner_of c)

abbrev pub kept : List UsageLedger → Result String (List UsageLedger) → List UsageLedger
kept ledger (ok l) = l
kept ledger (err e) = ledger

-- The ledger after a call; an exception leaves it as it was.
unfoldable pub recorded_in : Numerals → UsageCall → List UsageLedger → List UsageLedger
recorded_in py c ledger = kept ledger (record_generation_usage py c ledger)

abbrev set_reported :
    (String → Option TaskUsage) → String → Option TaskUsage → String → Option TaskUsage
set_reported f k none = f
set_reported f k (some u) = update f k u

module _ (c : UsageCall) (ledger : List UsageLedger) (j : String) where
  view-usage :
      (owner : User) (r : Result String TaskUsage)
      → view (kept ledger (r >>= λ u. ok (write_usage c owner u ledger))) j
        ≡ set_reported (view ledger) c.task_id (read_ok r) j
  view-usage owner (ok u) = view-write_usage c owner u ledger j
  view-usage owner (err e) = refl

  view-record_for :
      (py : Numerals) (t : Option CreationTask) (o : Option User)
      → view (kept ledger (record_for py c ledger t o)) j
        ≡ set_reported (view ledger) c.task_id (reported_for py t o) j
  view-record_for py none o = refl
  view-record_for py (some t) none = refl
  view-record_for py (some t) (some owner) = view-usage owner (usage_of py t)

view-recorded_in :
    (py : Numerals) (c : UsageCall) (ledger : List UsageLedger)
    → view (recorded_in py c ledger) ≡ set_reported (view ledger) c.task_id (reported py c)
unfolding recorded_in record_generation_usage
view-recorded_in py c ledger =
    λ i j. view-record_for c ledger j py (latest (reports_on c) c.tasks) (owner_of c) i

-- A run of calls, and the same calls on a map from tasks to usages.
unfoldable pub record_all : Numerals → List UsageCall → List UsageLedger → List UsageLedger
record_all py [] ledger = ledger
record_all py (c ∷ cs) ledger = record_all py cs (recorded_in py c ledger)

unfoldable pub replay :
    Numerals → List UsageCall → (String → Option TaskUsage) → String → Option TaskUsage
replay py [] f = f
replay py (c ∷ cs) f = replay py cs (set_reported f c.task_id (reported py c))

-- Any run of calls reads as the same calls on a map: for each task the ledger shows the usage that
-- was recorded last, and a call that finds no task, no owner or no number changes nothing.
pub record_all_refines :
    (py : Numerals) (cs : List UsageCall) (ledger : List UsageLedger)
    → view (record_all py cs ledger) ≡ replay py cs (view ledger)
unfolding record_all replay
record_all_refines py [] ledger = refl
record_all_refines py (c ∷ cs) ledger =
    record_all_refines py cs (recorded_in py c ledger)
    ∙ ap (replay py cs) (view-recorded_in py c ledger)
