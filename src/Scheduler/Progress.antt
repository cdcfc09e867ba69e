-- ===== src/Scheduler/Progress.antt =====
-- `update_task_progress` of app/services/scheduler/scheduler_service.py on the row.
pub mod Monotone
use ai_jin_shu.Common.{
  ℕ, Bool, true, false, ◌||◌, Option, none, some, String, is_some, if◌then◌else◌, Result, ok, err,
  ◌>>=◌,
}
use ai_jin_shu.Common.Int.{ℤ, pos, max_ℤ, ◌+ℤ◌}
use ai_jin_shu.Json.{
  Json, num, real, obj, Fields, get, set_key, as_dict, Numerals, int_or_zero, float_or_zero,
}
use ai_jin_shu.Tasks.{Error, bad_number, CreationTask, is_running}
use ai_jin_shu.Tasks.Transition.{write, clamp_progress}
use ai_jin_shu.Scheduler.Rows.{refreshed, lease_ttl_seconds}

-- The keyword arguments; a cost is in millionths.
pub record Usage : Type 0 where
  pub progress : Option ℤ
  pub phase : Option String
  pub message : Option String
  pub token_usage_input : Option ℤ
  pub token_usage_output : Option ℤ
  pub token_usage_billable : Option ℤ
  pub estimated_cost : Option ℤ

abbrev pub reports_usage : Usage → Bool
reports_usage a =
    is_some a.token_usage_input
    || is_some a.token_usage_output
    || is_some a.token_usage_billable
    || is_some a.estimated_cost

module _ (py : Numerals) where
  -- `int(result.get(k) or 0)`
  abbrev pub stored_int : String → Fields → Result Error ℤ
  stored_int k d = elim (int_or_zero py (get k d)) [ none ↦ err bad_number | some z ↦ ok z ]

  abbrev pub stored_float : String → Fields → Result Error ℤ
  stored_float k d = elim (float_or_zero py (get k d)) [ none ↦ err bad_number | some z ↦ ok z ]

  -- `result[k] = max(int(result.get(k) or 0), v)`, if a value is given.
  unfoldable pub raise_to : String → Option ℤ → Fields → Result Error Fields
  raise_to k none d = ok d
  raise_to k (some v) d = do old ← stored_int k d; ok (set_key k (num (max_ℤ old v)) d)

  -- The billable tokens are never below the visible ones.
  unfoldable pub raise_billable : Option ℤ → Fields → Result Error Fields
  raise_billable none d = ok d
  raise_billable (some v) d = do
    input ← stored_int "token_usage_input" d
    output ← stored_int "token_usage_output" d
    old ← stored_int "token_usage_billable" d
    ok (set_key "token_usage_billable" (num (max_ℤ (max_ℤ old v) (input +ℤ output))) d)

  unfoldable pub raise_cost : Option ℤ → Fields → Result Error Fields
  raise_cost none d = ok d
  raise_cost (some v) d = do
    old ← stored_float "estimated_cost" d
    ok (set_key "estimated_cost" (real (max_ℤ old v)) d)

  -- The new `result_json`.
  unfoldable pub raise_usage : Usage → Json → Result Error Json
  unfolding raise_to raise_billable raise_cost
  raise_usage a result =
      if reports_usage a
      then (do
        d₁ ← raise_to "token_usage_input" a.token_usage_input (as_dict result)
        d₂ ← raise_to "token_usage_output" a.token_usage_output d₁
        d₃ ← raise_billable a.token_usage_billable d₂
        d₄ ← raise_cost a.estimated_cost d₃
        ok (obj d₄))
      else ok result

  -- A running task's lease is refreshed with its progress.
  unfoldable pub progressed : ℕ → Usage → CreationTask → Result Error CreationTask
  unfolding clamp_progress refreshed
  progressed now a t = do
    result ← raise_usage a t.result_json
    let u = record t {
      progress = clamp_progress a.progress t.progress;
      phase = write a.phase t.phase;
      message = write a.message t.message;
      result_json = result;
    }
    ok (if is_running t.status then refreshed now (pos lease_ttl_seconds) u else u)
