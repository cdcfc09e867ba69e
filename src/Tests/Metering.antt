-- ===== src/Tests/Metering.antt =====
-- Runs of the record of usage.
use ai_jin_shu.Common.{ℕ, ◌≡◌, refl, some, [], ◌∷◌}
use ai_jin_shu.Common.Int.{pos}
use ai_jin_shu.Json.{get, num, obj, field, end}
use ai_jin_shu.Quota.Usage.{UsageCall, latest, usage_of, write_usage, record_generation_usage}
use ai_jin_shu.Quota.Usage.Ledger.{view, record_all, recorded_in, replay, record_all_refines}
use ai_jin_shu.Tests.Data.{py, done}

abbrev reporting : ℕ → UsageCall
reporting tokens = record {
  tasks =
      record done {
        result_json = obj (
            field "token_usage_input" (num (pos tokens))
              (field "current_chapter" (num (pos 4)) end));
      }
      ∷ [];
  novels = record { id = 7; user_id = some "u1" } ∷ [];
  users = record { id = 1; uuid = "u1"; role = "user" } ∷ [];
  now = record { year = 2026; month = 3; micros = 5 };
  task_id = "p";
  novel_id = 7;
  source = "generation";
}

-- The second report of the task replaces the first.
record_all_refines_example :
    view (record_all py (reporting 100 ∷ reporting 250 ∷ []) [])
    ≡ replay py (reporting 100 ∷ reporting 250 ∷ []) (view [])
record_all_refines_example = record_all_refines py (reporting 100 ∷ reporting 250 ∷ []) []

last_report :
    view (record_all py (reporting 100 ∷ reporting 250 ∷ []) []) "p"
    ≡ some (record {
      input_tokens = 250;
      output_tokens = 0;
      billable_tokens = 250;
      chapters_generated = 4;
      estimated_cost = 0;
    })
unfolding view record_all recorded_in record_generation_usage latest usage_of get write_usage
last_report = refl
