-- ===== src/Promotion.antt =====
-- app/services/cv/promotion_engine.py: the staged rollout of a flag. A rate is a whole number of
-- millionths. The service level sample is an argument: `compute_sli` measures it.
pub mod Decision
pub mod Apply
pub mod Stages
pub mod Canary
use ai_jin_shu.Common.{
  ℕ, Bool, true, false, ◌&&◌, Option, none, some, String, List, [], ◌∷◌, str_eq, leb, if◌then◌else◌,
}
use ai_jin_shu.Common.Table.{find}

pub data Phase : Type 0 where
  baseline canary_10 canary_50 full stable : Phase
  other : String → Phase

-- _PHASE_TO_PCT
abbrev pub phase_to_pct : Phase → ℕ
phase_to_pct canary_10 = 10
phase_to_pct canary_50 = 50
phase_to_pct full = 100
phase_to_pct stable = 100
phase_to_pct p = 0

-- `_next_phase`: the next entry of _PHASES, the last one for itself.
abbrev pub next_phase : Phase → Phase
next_phase baseline = canary_10
next_phase canary_10 = canary_50
next_phase canary_50 = full
next_phase full = stable
next_phase stable = stable
next_phase (other s) = baseline

pub record PhaseGate : Type 0 where
  pub min_samples : ℕ
  pub max_failure_rate : ℕ
  pub max_p95_latency_ms : Option ℕ
  pub rollback_failure_rate : ℕ
  pub rollback_burn_rate_1h_over : Option ℕ

abbrev pub default_gate : PhaseGate
default_gate = record {
  min_samples = 20;
  max_failure_rate = 50000;
  max_p95_latency_ms = none;
  rollback_failure_rate = 200000;
  rollback_burn_rate_1h_over = none;
}

pub record FlagPolicy : Type 0 where
  pub canary_10 : PhaseGate
  pub canary_50 : PhaseGate
  pub full : PhaseGate
  pub stable : PhaseGate
  pub observation_minutes : ℕ

abbrev pub default_policy : FlagPolicy
default_policy = record {
  canary_10 = default_gate;
  canary_50 = default_gate;
  full = default_gate;
  stable = default_gate;
  observation_minutes = 15;
}

pub record NamedPolicy : Type 0 where
  pub flag : String
  pub policy : FlagPolicy

pub record PolicyFile : Type 0 where
  pub default : FlagPolicy
  pub flags : List NamedPolicy

-- `_resolve_policy`, from what `_load_per_flag_policy` and `_load_policy_file` return.
unfoldable pub resolve_policy : Option FlagPolicy → Option PolicyFile → String → FlagPolicy
resolve_policy (some p) file n = p
resolve_policy none none n = default_policy
resolve_policy none (some f) n = elim (find (λ p. str_eq p.flag n) f.flags) [
  | none ↦ f.default
  | some p ↦ p.policy
]

-- `_phase_to_gate`: the entry gate of the phase after `current_phase`.
abbrev pub phase_to_gate : FlagPolicy → Phase → PhaseGate
phase_to_gate p baseline = p.canary_10
phase_to_gate p canary_10 = p.canary_50
phase_to_gate p canary_50 = p.full
phase_to_gate p s = p.stable

pub record SliSnapshot : Type 0 where
  pub samples : ℕ
  pub failure_rate : ℕ
  pub p95_latency_ms : Option ℕ
  pub burn_rate_1h : ℕ

pub data Verdict : Type 0 where
  promote hold rollback init : Verdict
