-- ===== src/Promotion/Apply.antt =====
-- How `evaluate_flag` (app/services/cv/promotion_engine.py) applies its decision: the row of
-- `cv_promotion_state`, and the write of the feature flag.
use ai_jin_shu.Common.{
  ℕ, Bool, true, false, Option, none, some, String, List, [], ◌∷◌, ◌++◌, str_eq, ltb, if◌then◌else◌,
  ok, err,
}
use ai_jin_shu.Common.Int.{pos}
use ai_jin_shu.Common.Table.{find, put}
use ai_jin_shu.Json.{end}
use ai_jin_shu.Flags.{FlagDb, FlagChange, set_flag}
use ai_jin_shu.Promotion.{
  Phase, baseline, SliSnapshot, FlagPolicy, Verdict, promote, rollback, init,
}
use ai_jin_shu.Promotion.Decision.{PromotionDecision, decide}

pub record PromotionState : Type 0 where
  pub flag_name : String
  pub phase : Phase
  pub current_canary_pct : ℕ
  pub last_check_at : Option ℕ
  pub verdict : Verdict
  pub payload : Option SliSnapshot

abbrev pub of_flag : String → PromotionState → Bool
of_flag n r = str_eq r.flag_name n

-- The new row of `_ensure_state_row`.
abbrev pub first_state : String → PromotionState
first_state n = record {
  flag_name = n;
  phase = baseline;
  current_canary_pct = 0;
  last_check_at = none;
  verdict = init;
  payload = none;
}

-- `_ensure_state_row`
unfoldable pub ensure_state_row :
    String → List PromotionState → PromotionState × List PromotionState
ensure_state_row n rows = elim (find (of_flag n) rows) [
  | none ↦ (first_state n, rows ++ first_state n ∷ [])
  | some r ↦ (r, rows)
]

abbrev pub writes_flag : Verdict → Bool
writes_flag promote = true
writes_flag rollback = true
writes_flag v = false

abbrev pub flag_change : String → PromotionDecision → FlagChange
flag_change reason d = record {
  enabled = some (ltb 0 d.next_canary_pct);
  rollout_pct = some (pos d.next_canary_pct);
  novel_allowlist = none;
  extra = end;
  changed_by = "cv_watchdog";
  reason = reason;
}

-- An exception of `set_flag` is logged and dropped.
unfoldable pub sync_flag : (String → String) → String → String → PromotionDecision → FlagDb → FlagDb
sync_flag strip n reason d flags =
    if writes_flag d.verdict
    then elim (set_flag strip n (flag_change reason d) flags) [ ok r ↦ r.1 | err e ↦ flags ]
    else flags

abbrev pub applied : ℕ → SliSnapshot → PromotionDecision → PromotionState → PromotionState
applied now s d r = record r {
  phase = d.next_phase;
  current_canary_pct = d.next_canary_pct;
  last_check_at = some now;
  verdict = d.verdict;
  payload = some s;
}

pub record PromotionDb : Type 0 where
  pub states : List PromotionState
  pub flags : FlagDb

-- `evaluate_flag`; `reason` is the text of the decision's reason.
unfoldable pub evaluate_flag :
    (String → String)
    → (PromotionDecision → String)
    → FlagPolicy
    → SliSnapshot
    → ℕ
    → String
    → PromotionDb
    → PromotionDecision × PromotionDb
unfolding ensure_state_row sync_flag decide
evaluate_flag strip reason policy s now n db =
    let (row, rows) = ensure_state_row n db.states in
    let d = decide policy s row.phase row.current_canary_pct in
    (
      d,
      record {
        states = put (of_flag n) (applied now s d row) rows;
        flags = sync_flag strip n (reason d) d db.flags;
      },
    )
