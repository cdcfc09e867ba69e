-- ===== src/Quota/Usage.antt =====
-- `record_generation_usage` of app/services/quota.py: the usage that a finished task reports, and
-- the row of the ledger that keeps it. A negative count, which no worker reports, is read as 0.
pub mod Ledger
pub mod Once
use ai_jin_shu.Common.{
  ℕ, ◌+◌, ◌-◌, max, Bool, true, false, ◌&&◌, ◌||◌, Option, none, some, String, List, [], ◌∷◌, ◌++◌,
  str_eq, ltb, leb, ◌==◌, if◌then◌else◌, Result, ok, err, ◌>>=◌,
}
use ai_jin_shu.Common.Int.{ℤ, pos_part}
use ai_jin_shu.Common.Table.{find, put}
use ai_jin_shu.Json.{
  Json, Fields, Numerals, get, as_dict, or_value, num, int_or_zero, float_or_zero, to_int,
}
use ai_jin_shu.Tasks.{Status, completed, CreationTask}
use ai_jin_shu.Quota.{User, has_uuid, UsageLedger}
use ai_jin_shu.Quota.Calendar.{Moment}

-- The columns of a novel that the function reads.
pub record OwnedNovel : Type 0 where
  pub id : ℕ
  pub user_id : Option String

-- The columns of a ledger row that a report sets.
pub record TaskUsage : Type 0 where
  pub input_tokens : ℕ
  pub output_tokens : ℕ
  pub billable_tokens : ℕ
  pub chapters_generated : ℕ
  pub estimated_cost : ℕ

-- One call, with the tables that it reads and the time of the insert.
pub record UsageCall : Type 0 where
  pub tasks : List CreationTask
  pub novels : List OwnedNovel
  pub users : List User
  pub now : Moment
  pub task_id : String
  pub novel_id : ℕ
  pub source : String

abbrev pub is_worker : String → Option String → Bool
is_worker k none = false
is_worker k (some w) = str_eq w k

-- The filter of the task, under its worker's or its public id.
abbrev pub reports_on : UsageCall → CreationTask → Bool
reports_on c t =
    str_eq t.task_type "generation"
    && str_eq t.resource_type "novel"
    && (t.resource_id == c.novel_id)
    && (is_worker c.task_id t.worker_task_id || str_eq t.public_id c.task_id)

-- `order_by(id.desc()).limit(1)`
abbrev pub later : CreationTask → Option CreationTask → CreationTask
later t none = t
later t (some r) = if ltb t.id r.id then r else t

unfoldable pub latest : (CreationTask → Bool) → List CreationTask → Option CreationTask
latest p [] = none
latest p (t ∷ ts) = let rest = latest p ts in if p t then some (later t rest) else rest

-- The user who owns the novel; an empty owner id is none.
abbrev pub owner_of : UsageCall → Option User
owner_of c = elim (find (λ n. n.id == c.novel_id) c.novels) [
  | none ↦ none
  | some n ↦ elim n.user_id [
    | none ↦ none
    | some u ↦ if str_eq u "" then none else find (has_uuid u) c.users
  ]
]

abbrev pub is_completed : Status → Bool
is_completed s = elim s [ completed ↦ true | t ↦ false ]

abbrev pub read_count : Option ℤ → Result String ℕ
read_count none = err "ValueError"
read_count (some z) = ok (pos_part z)

-- `completed_chapters` when the result has none: up to the current chapter, or as many as wanted.
abbrev pub chapters_from : Numerals → Fields → Fields → ℕ → Result String ℕ
chapters_from py result payload start =
    read_count (int_or_zero py (get "current_chapter" result)) >>= λ current.
    if leb start current
    then ok (current - start + 1)
    else read_count (int_or_zero py (get "num_chapters" payload))

-- What the task reports, `int` and `float` reading the texts; an error is their exception.
unfoldable pub usage_of : Numerals → CreationTask → Result String TaskUsage
usage_of py t = do
  let result = as_dict t.result_json
  let payload = t.payload_json
  start ← read_count (
      to_int py (
        or_value (get "start_chapter" result)
          (or_value (get "start_chapter" payload) (num (ℤ.pos 1)))))
  done ← read_count (int_or_zero py (get "completed_chapters" result))
  chapters ←
      if (done == 0) && is_completed t.status
      then chapters_from py result payload start
      else ok done
  input ← read_count (int_or_zero py (get "token_usage_input" result))
  output ← read_count (int_or_zero py (get "token_usage_output" result))
  billed ← read_count (int_or_zero py (get "token_usage_billable" result))
  cost ← read_count (float_or_zero py (get "estimated_cost" result))
  ok (record {
    input_tokens = input;
    output_tokens = output;
    billable_tokens = max billed (input + output);
    chapters_generated = chapters;
    estimated_cost = cost;
  })

abbrev pub has_task : String → UsageLedger → Bool
has_task k r = str_eq r.task_id k

abbrev pub with_usage : TaskUsage → UsageLedger → UsageLedger
with_usage u r = record r {
  input_tokens = u.input_tokens;
  output_tokens = u.output_tokens;
  billable_tokens = u.billable_tokens;
  chapters_generated = u.chapters_generated;
  estimated_cost = u.estimated_cost;
}

-- The row that is inserted for a task without one.
abbrev pub new_entry : UsageCall → User → TaskUsage → UsageLedger
new_entry c owner u = record {
  user_id = owner.id;
  novel_id = c.novel_id;
  task_id = c.task_id;
  source = c.source;
  input_tokens = u.input_tokens;
  output_tokens = u.output_tokens;
  billable_tokens = u.billable_tokens;
  chapters_generated = u.chapters_generated;
  estimated_cost = u.estimated_cost;
  created_at = c.now;
}

-- The write of the row.
unfoldable pub write_usage : UsageCall → User → TaskUsage → List UsageLedger → List UsageLedger
write_usage c owner u ledger = elim (find (has_task c.task_id) ledger) [
  | none ↦ ledger ++ new_entry c owner u ∷ []
  | some r ↦ put (has_task c.task_id) (with_usage u r) ledger
]

-- The rest of the function, from the task and the owner that were looked up.
abbrev pub record_for :
    Numerals
    → UsageCall
    → List UsageLedger
    → Option CreationTask
    → Option User
    → Result String (List UsageLedger)
record_for py c ledger none owner = ok ledger
record_for py c ledger (some t) none = ok ledger
record_for py c ledger (some t) (some owner) =
    usage_of py t >>= λ u. ok (write_usage c owner u ledger)

-- `record_generation_usage`
unfoldable pub record_generation_usage :
    Numerals → UsageCall → List UsageLedger → Result String (List UsageLedger)
record_generation_usage py c ledger =
    record_for py c ledger (latest (reports_on c) c.tasks) (owner_of c)
