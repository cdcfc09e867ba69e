-- ===== src/Promotion/Stages.antt =====
-- The stages that the decisions of app/services/cv/promotion_engine.py lead through.
use ai_jin_shu.Common.{
  ℕ, ◌≡◌, ◌↔◌, refl, true, false, inl, inr, List, String, All, arith, Option-cases,
}
use ai_jin_shu.Common.Table.{find, All-find, All-put, All-append_one}
use ai_jin_shu.Promotion.{
  Phase, baseline, phase_to_pct, phase_to_gate, FlagPolicy, SliSnapshot, promote, rollback,
}
use ai_jin_shu.Promotion.Decision.{
  PromotionDecision, decide, must_roll_back, may_promote, is_stable,
}
use ai_jin_shu.Promotion.Apply.{
  PromotionState, PromotionDb, evaluate_flag, ensure_state_row, first_state, of_flag, applied,
}

-- The decision is a rollback, to the baseline at 0 percent, exactly when a rollback test fires; it is
-- a promotion exactly when none fires, the flag is not yet stable, and the gate of its next phase
-- passes.
pub decide_verdicts :
    (policy : FlagPolicy) (s : SliSnapshot) (p : Phase) (pct : ℕ)
    → let gate = phase_to_gate policy p in
      let d = decide policy s p pct in
      (((d.verdict ≡ rollback) × (d.next_phase ≡ baseline) × (d.next_canary_pct ≡ 0))
        ↔ (must_roll_back gate s ≡ true))
      × ((d.verdict ≡ promote)
          ↔ ((must_roll_back gate s ≡ false) × (is_stable p ≡ false) × (may_promote gate s ≡ true)))
unfolding decide
decide_verdicts policy s p pct = ((ground arith, ground arith), (ground arith, ground arith))

-- The percentage of a known phase is the one of the table.
abbrev pub IsAligned : PromotionState → Type 0
IsAligned r = r.current_canary_pct ≡ phase_to_pct r.phase

applied-IsAligned :
    (now : ℕ) (policy : FlagPolicy) (s : SliSnapshot) (r : PromotionState)
    → IsAligned r
    → IsAligned (applied now s (decide policy s r.phase r.current_canary_pct) r)
unfolding decide
applied-IsAligned now policy s r h = ground arith

ensure-All :
    (n : String) (rows : List PromotionState)
    → All IsAligned rows
    → IsAligned (ensure_state_row n rows).0 × All IsAligned (ensure_state_row n rows).1
unfolding ensure_state_row
ensure-All n rows h = elim (Option-cases (find (of_flag n) rows)) [
  | inl e ↦ rw (e, ensure_state_row) (refl, All-append_one IsAligned (first_state n) rows h refl)
  | inr (r, e) ↦ rw (e, ensure_state_row) (All-find IsAligned (of_flag n) rows r h e, h)
]

-- Every evaluation keeps the percentage of every flag equal to that of its phase.
pub evaluate_flag-IsAligned :
    (strip : String → String) (reason : PromotionDecision → String) (policy : FlagPolicy)
    (s : SliSnapshot) (now : ℕ) (n : String) (db : PromotionDb)
    → All IsAligned db.states
    → All IsAligned (evaluate_flag strip reason policy s now n db).1.states
unfolding evaluate_flag
evaluate_flag-IsAligned strip reason policy s now n db h =
    let (row, rows) = ensure-All n db.states h in
    All-put IsAligned (of_flag n) _ _ rows
      (applied-IsAligned now policy s (ensure_state_row n db.states).0 row)
