-- ===== src/Tests/Calling.antt =====
-- Runs of the model calls and of the life cycle of foreshadows.
use ai_jin_shu.Common.{ℕ, ◌≡◌, refl, true, none, some, [], ◌∷◌}
use ai_jin_shu.Breaker.{select_endpoint, record_call}
use ai_jin_shu.Agents.{Attempt, run_llm_agent}
use ai_jin_shu.Agents.Attempts.{EachOnce, run_llm_agent-EachOnce}
use ai_jin_shu.Foreshadows.{planned, ForeshadowRow, LifecycleGates, advance_foreshadows}
use ai_jin_shu.Foreshadows.Settled.{advance_foreshadows-twice}

-- A model that answers by no method.
abbrev mute : Attempt ℕ
mute = record {
  llm_available = true;
  json_schema = none;
  function_calling = none;
  json_mode = none;
}

gives_up : (run_llm_agent true (λ n. 100) (λ n. mute) "plan" []).result ≡ none
unfolding run_llm_agent select_endpoint record_call
gives_up = refl

run_llm_agent-EachOnce_example :
    EachOnce (run_llm_agent true (λ n. 100) (λ n. mute) "plan" []).tried_endpoints
run_llm_agent-EachOnce_example = run_llm_agent-EachOnce (λ n. 100) (λ n. mute) "plan" [] gives_up

abbrev gates : LifecycleGates
gates = record { payoff_threshold = 7000; overdue_threshold = 5 }

-- A foreshadow that is planted and overdue at once.
abbrev forgotten : ForeshadowRow
forgotten = record {
  foreshadow_id = "ring";
  novel_id = 7;
  novel_version_id = some 1;
  lifecycle_state = planned;
  plant_chapter = 2;
  payoff_chapter = 0;
  match_confidence = 0;
}

advance_foreshadows-twice_example :
    advance_foreshadows true gates 9 7
      (some 1)
      (advance_foreshadows true gates 9 7 (some 1) (forgotten ∷ [])).0
    ≡ ((advance_foreshadows true gates 9 7 (some 1) (forgotten ∷ [])).0, [])
advance_foreshadows-twice_example =
    advance_foreshadows-twice true gates 9 7 (some 1) (forgotten ∷ [])
