-- ===== src/Tests/Services.antt =====
-- Runs of the breaker, the budget, the quota and the checkpoint merge.
use ai_jin_shu.Common.{◌≡◌, ◌≢◌, refl, true, some, List, [], ◌∷◌, arith}
use ai_jin_shu.Common.Int.{pos}
use ai_jin_shu.Json.{null, num, obj, Fields, end, field, get}
use ai_jin_shu.Breaker.{
  EndpointName, primary, fallback_a, fallback_b, open_, BreakerRecord, fresh_record, StageState,
  fresh_stage, excludes, select_on,
}
use ai_jin_shu.Breaker.Probe.{selects, run, single_probe}
use ai_jin_shu.Budget.{budget_usd}
use ai_jin_shu.Quota.{User, UserQuota, UsageLedger}
use ai_jin_shu.Quota.Calendar.{Moment}
use ai_jin_shu.Tests.Data.{py, priced}

abbrev tripped : BreakerRecord
tripped = record fresh_record { state = open_; consecutive_failures = 3; opened_at = 100 }

abbrev down : StageState
down = record (fresh_stage "plan") { primary = tripped }

abbrev all_down : StageState
all_down = record down { fallback_a = tripped; fallback_b = tripped }

abbrev all_three : List EndpointName
all_three = primary ∷ fallback_a ∷ fallback_b ∷ []

taken_anyway : excludes all_three (select_on 200 all_three down).0.0 ≡ true
unfolding select_on
taken_anyway = refl

single_probe_example :
    (select_on 9000 [] (run (selects 6000 [] ∷ []) (select_on 5000 [] down).1)).0.0 ≢ primary
single_probe_example =
    single_probe 5000 9000 [] [] (selects 6000 [] ∷ []) down refl (omega arith) refl refl

price : budget_usd py priced.config ≡ some (pos 1000000)
unfolding budget_usd get
price = refl

abbrev june : Moment
june = record { year = 2026; month = 6; micros = 100 }

abbrev reader : User
reader = record { id = 1; uuid = "u1"; role = "user" }

abbrev row : UsageLedger
row = record {
  user_id = 1;
  novel_id = 7;
  task_id = "t";
  source = "generation";
  input_tokens = 10;
  output_tokens = 5;
  billable_tokens = 0;
  chapters_generated = 2;
  estimated_cost = 0;
  created_at = june;
}

abbrev small : UserQuota
small = record {
  user_id = 1;
  plan_key = "free";
  max_concurrent_tasks = pos 1;
  monthly_chapter_limit = 4;
  monthly_token_limit = 100;
  status = "active";
}

abbrev december : Moment
december = record { year = 2026; month = 12; micros = 5 }

abbrev patch : Fields
patch = field "gone" null (field "state" (obj (field "chapter" (num (pos 5)) end)) end)

abbrev stored_state : Fields
stored_state =
    field "gone" (num (pos 1)) (field "state" (obj (field "draft" (num (pos 2)) end)) end)
