-- ===== src/Agents.antt =====
-- `run_llm_agent` of app/services/agents/llm_agent.py: one call of a model with a structured answer,
-- tried on the endpoints that the circuit breaker selects.
pub mod Attempts
use ai_jin_shu.Common.{
  ℕ, zero, suc, Bool, true, false, Option, none, some, String, List, [], ◌∷◌, ◌++◌, is_some,
  if◌then◌else◌,
}
use ai_jin_shu.Breaker.{
  EndpointName, BreakerState, StageState, excludes, select_endpoint, record_call,
}

-- What the model gives on one endpoint: whether `get_llm` returns, and the validated answer of each
-- method, in the order in which they are tried.
pub record Attempt {ℓ} (A : Type ℓ) : Type ℓ where
  pub llm_available : Bool
  pub json_schema : Option A
  pub function_calling : Option A
  pub json_mode : Option A

-- What the call returns, the endpoints that were tried, and the breakers.
pub record AgentRun {ℓ} (A : Type ℓ) : Type ℓ where
  pub result : Option A
  pub tried_endpoints : List EndpointName
  pub breakers : List StageState

module _ {ℓ} {A : Type ℓ} where
  abbrev pub first : Option A → Option A → Option A
  first none b = b
  first (some a) b = some a

  -- The answer of one endpoint; none is a failure of the endpoint.
  abbrev pub answer_of : Attempt A → Option A
  answer_of t =
      if t.llm_available then first t.json_schema (first t.function_calling t.json_mode) else none

  -- How a round ends: the breaker has no endpoint left, the endpoint failed, or it answered. `next` is
  -- the rest of the loop.
  abbrev pub round_end :
      Bool
      → Option A
      → List EndpointName
      → List EndpointName
      → List StageState
      → List StageState
      → AgentRun A
      → AgentRun A
  round_end true given tried tried' selected recorded next = record {
    result = none;
    tried_endpoints = tried;
    breakers = selected;
  }
  round_end false none tried tried' selected recorded next = next
  round_end false (some a) tried tried' selected recorded next = record {
    result = some a;
    tried_endpoints = tried';
    breakers = recorded;
  }

  -- The loop `for _ in range(3)` with that many rounds left; `clock` has the time of a round, and
  -- `attempts` what the model gives in it.
  unfoldable pub rounds :
      ℕ → (ℕ → ℕ) → (ℕ → Attempt A) → String → List EndpointName → List StageState → AgentRun A
  rounds zero clock attempts stage tried states = record {
    result = none;
    tried_endpoints = tried;
    breakers = states;
  }
  rounds (suc n) clock attempts stage tried states =
      let ((e, s), selected) = select_endpoint (clock n) stage tried states in
      let given = answer_of (attempts n) in
      let recorded = (record_call (clock n) stage e (is_some given) selected).1 in
      let next = rounds n clock attempts stage (tried ++ e ∷ []) recorded in
      round_end (excludes tried e) given tried (tried ++ e ∷ []) selected recorded next

  -- `run_llm_agent`; a prompt that does not render ends it at once.
  unfoldable pub run_llm_agent :
      Bool → (ℕ → ℕ) → (ℕ → Attempt A) → String → List StageState → AgentRun A
  unfolding rounds
  run_llm_agent false clock attempts stage states = record {
    result = none;
    tried_endpoints = [];
    breakers = states;
  }
  run_llm_agent true clock attempts stage states = rounds 3 clock attempts stage [] states
