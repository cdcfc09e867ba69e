-- ===== src/Promotion/Decision.antt =====
-- The decision of `evaluate_flag` (app/services/cv/promotion_engine.py).
use ai_jin_shu.Common.{ℕ, Bool, true, false, ◌&&◌, ◌||◌, Option, none, some, leb, if◌then◌else◌}
use ai_jin_shu.Promotion.{
  Phase, baseline, stable, phase_to_pct, next_phase, PhaseGate, FlagPolicy, phase_to_gate,
  SliSnapshot, Verdict, promote, hold, rollback,
}

pub record PromotionDecision : Type 0 where
  pub previous_phase : Phase
  pub next_phase : Phase
  pub next_canary_pct : ℕ
  pub verdict : Verdict

-- `limit is not None and value >= limit`
abbrev pub reaches : ℕ → Option ℕ → Bool
reaches v none = false
reaches v (some limit) = leb limit v

-- `limit is None or (value or 0) <= limit`
abbrev pub within : Option ℕ → Option ℕ → Bool
within v none = true
within none (some limit) = true
within (some v) (some limit) = leb v limit

-- The two rollback tests, of the failure rate and of the burn rate.
unfoldable pub must_roll_back : PhaseGate → SliSnapshot → Bool
must_roll_back g s =
    (leb g.min_samples s.samples && leb g.rollback_failure_rate s.failure_rate)
    || reaches s.burn_rate_1h g.rollback_burn_rate_1h_over

unfoldable pub may_promote : PhaseGate → SliSnapshot → Bool
may_promote g s =
    leb g.min_samples s.samples
    && leb s.failure_rate g.max_failure_rate
    && within s.p95_latency_ms g.max_p95_latency_ms

abbrev pub is_stable : Phase → Bool
is_stable stable = true
is_stable p = false

-- The decision for a flag in phase `p` at `pct` percent.
unfoldable pub decide : FlagPolicy → SliSnapshot → Phase → ℕ → PromotionDecision
unfolding must_roll_back may_promote
decide policy s p pct =
    let gate = phase_to_gate policy p in
    if must_roll_back gate s
    then record {
      previous_phase = p;
      next_phase = baseline;
      next_canary_pct = 0;
      verdict = rollback;
    }
    else if is_stable p
    then record {
      previous_phase = stable;
      next_phase = stable;
      next_canary_pct = 100;
      verdict = hold;
    }
    else if may_promote gate s
    then record {
      previous_phase = p;
      next_phase = next_phase p;
      next_canary_pct = phase_to_pct (next_phase p);
      verdict = promote;
    }
    else record { previous_phase = p; next_phase = p; next_canary_pct = pct; verdict = hold }
