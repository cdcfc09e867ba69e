-- ===== src/Budget.antt =====
-- app/services/cost/budget.py: the money spent on a novel against its budget. An amount is a whole
-- number of millionths of a dollar, the precision to which `compute_cost` rounds.
pub mod Bounds
use ai_jin_shu.Common.{
  ℕ, ◌+◌, ◌*◌, Bool, true, false, Option, none, some, String, List, [], ◌∷◌, leb, ◌==◌,
  if◌then◌else◌,
}
use ai_jin_shu.Common.Int.{ℤ, pos, negsuc, pos_part, ◌+ℤ◌}
use ai_jin_shu.Common.Table.{find}
use ai_jin_shu.Json.{
  Json, null, obj, Fields, get, as_dict, is_null, Numerals, to_float, float_or_zero,
}

-- The columns of `novels` that the services here read or write.
pub record Novel : Type 0 where
  pub id : ℕ
  pub status : String
  pub config : Json

pub record AgentEvent : Type 0 where
  pub novel_id : ℕ
  pub payload : Json

abbrev pub of_novel : ℕ → Novel → Bool
of_novel i n = n.id == i

module _ (py : Numerals) where
  -- The cost in one event; what is no number is skipped.
  abbrev pub cost_of : Json → ℤ
  cost_of (obj d) = elim (float_or_zero py (get "cost_usd" d)) [ none ↦ pos 0 | some z ↦ z ]
  cost_of v = pos 0

  -- `_spent_for_novel` over the rows of the table; `none` is a query that failed.
  unfoldable pub spent_rows : ℕ → List AgentEvent → ℤ
  spent_rows i [] = pos 0
  spent_rows i (e ∷ es) =
      let rest = spent_rows i es in if e.novel_id == i then cost_of e.payload +ℤ rest else rest

  unfoldable pub spent_for_novel : ℕ → Option (List AgentEvent) → ℤ
  unfolding spent_rows
  spent_for_novel i none = pos 0
  spent_for_novel i (some es) = spent_rows i es

  -- `cost_budget.usd` of the novel's config, if it is a number.
  unfoldable pub budget_usd : Json → Option ℤ
  budget_usd config = elim (get "cost_budget" (as_dict config)) [
    | obj d ↦ if is_null (get "usd" d) then none else to_float py (get "usd" d)
    | _ ↦ none
  ]

pub data BudgetStatus : Type 0 where
  ok warn hard_stop no_budget : BudgetStatus

-- `burn_rate` is the quotient of the other two amounts, and has no field here.
pub record BudgetVerdict : Type 0 where
  pub status : BudgetStatus
  pub spent_usd : ℤ
  pub budget_usd : Option ℕ

-- The comparisons of `spent / budget` with 1 and 0.8.
abbrev pub burn_status : ℕ → ℕ → BudgetStatus
burn_status spent budget =
    if leb budget spent then hard_stop else if leb (8 * budget) (10 * spent) then warn else ok

abbrev pub verdict_for : ℤ → Option ℤ → BudgetVerdict
verdict_for spent (some (pos b)) =
    if b == 0
    then record { status = no_budget; spent_usd = spent; budget_usd = none }
    else record { status = burn_status (pos_part spent) b; spent_usd = spent; budget_usd = some b }
verdict_for spent b = record { status = no_budget; spent_usd = spent; budget_usd = none }

-- `check_budget`
unfoldable pub check_budget : Numerals → ℕ → List Novel → Option (List AgentEvent) → BudgetVerdict
check_budget py i novels events = elim (find (of_novel i) novels) [
  | none ↦ record { status = no_budget; spent_usd = pos 0; budget_usd = none }
  | some n ↦ verdict_for (spent_for_novel py i events) (budget_usd py n.config)
]
