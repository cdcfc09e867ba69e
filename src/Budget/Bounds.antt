-- ===== src/Budget/Bounds.antt =====
-- When `check_budget` of app/services/cost/budget.py stops a novel.
use ai_jin_shu.Common.{ℕ, ◌*◌, ◌≤◌, ◌<◌, ◌≡◌, ◌↔◌, Option, some, List, arith}
use ai_jin_shu.Common.Int.{pos, pos_part}
use ai_jin_shu.Common.Table.{find}
use ai_jin_shu.Json.{Numerals}
use ai_jin_shu.Budget.{
  Novel, AgentEvent, of_novel, check_budget, spent_for_novel, budget_usd, hard_stop, warn,
}

module _ (py : Numerals) (i : ℕ) (novels : List Novel) (events : Option (List AgentEvent))
    (n : Novel) (b : ℕ) (found : find (of_novel i) novels ≡ some n)
    (priced : budget_usd py n.config ≡ some (pos b)) (positive : 0 < b) where
  -- With a positive budget the verdict is a hard stop exactly when the spending has reached the
  -- budget, and a warning exactly when it has reached four fifths of it and not all of it.
  pub verdict_thresholds :
      let spent = pos_part (spent_for_novel py i events) in
      (((check_budget py i novels events).status ≡ hard_stop) ↔ (b ≤ spent))
      × (((check_budget py i novels events).status ≡ warn) ↔ ((8 * b ≤ 10 * spent) × (spent < b)))
  unfolding check_budget
  verdict_thresholds =
      rw (check_budget, found, priced) ((ground arith, ground arith), (ground arith, ground arith))
