-- ===== src/Context.antt =====
-- app/services/memory/context_blocks.py: which blocks of context a prompt takes under its budget of
-- tokens. Text is compared by code point, as Python does.
pub mod Budgeted
pub mod Reasons
pub mod Applied
use Prim.Native.String.{compare}
use package.text.Mathlib.Text.{is_le}
use ai_jin_shu.Common.{
  ℕ, ◌+◌, Bool, true, false, not, ◌&&◌, ◌||◌, String, List, [], ◌∷◌, map, str_eq, ltb, leb, ◌==◌,
  select, if◌then◌else◌,
}
use ai_jin_shu.Common.Sorting.{sort_by}
use ai_jin_shu.Common.Int.{ℤ, pos_part, ltb_ℤ}
use ai_jin_shu.Json.{Json, Items, Fields, null, text, arr, obj, nil, end}

pub record ContextBlock : Type 0 where
  pub block_id : String
  pub source_type : String
  pub tier : String
  pub priority : ℤ
  pub approx_tokens : ℤ
  pub value : Json
  pub field_names : List String
  pub included : Bool
  pub drop_reason : String

pub record ContextBlockSelection : Type 0 where
  pub blocks : List ContextBlock
  pub included_block_ids : List String
  pub dropped_block_ids : List String
  pub used_tokens : ℕ
  pub token_budget : ℕ

-- `_TIER_ORDER.get(tier, 99)`
abbrev pub tier_order : String → ℕ
tier_order t =
    if str_eq t "required"
    then 0
    else if str_eq t "preferred"
    then 1
    else if str_eq t "optional"
    then 2
    else 99

abbrev pub is_required : ContextBlock → Bool
is_required b = str_eq b.tier "required"

-- `_is_empty`
abbrev pub is_empty : Json → Bool
is_empty null = true
is_empty (text s) = str_eq s ""
is_empty (arr nil) = true
is_empty (obj end) = true
is_empty v = false

-- `max(0, int(block.approx_tokens or 0))`
abbrev pub approx : ContextBlock → ℕ
approx b = pos_part b.approx_tokens

-- The order of the key of `sorted`: tier, priority, id.
abbrev pub block_first : ContextBlock → ContextBlock → Bool
block_first a b =
    ltb (tier_order a.tier) (tier_order b.tier)
    || (tier_order a.tier == tier_order b.tier
        && (ltb_ℤ a.priority b.priority
            || (not (ltb_ℤ b.priority a.priority) && is_le (compare a.block_id b.block_id))))

abbrev pub ordered_blocks : List ContextBlock → List ContextBlock
ordered_blocks bs = sort_by block_first bs

abbrev pub kept_block : ContextBlock → ContextBlock
kept_block b = record b { included = true; drop_reason = "" }

abbrev pub dropped_block : String → ContextBlock → ContextBlock
dropped_block reason b = record b { included = false; drop_reason = reason }

-- One turn of the loop, with the tokens that are used so far: the block as it is appended.
abbrev pub settled_block : ℕ → ℕ → ContextBlock → ContextBlock
settled_block budget used b =
    if is_empty b.value
    then dropped_block "empty" b
    else if is_required b
    then kept_block b
    else if leb (used + approx b) budget
    then kept_block b
    else dropped_block "token_budget_exceeded" b

-- What the turn adds to the tokens used.
abbrev pub charge : ℕ → ℕ → ContextBlock → ℕ
charge budget used b =
    if is_empty b.value
    then 0
    else if is_required b
    then approx b
    else if leb (used + approx b) budget
    then approx b
    else 0

-- The loop: the blocks that it appends, and the tokens used at its end.
unfoldable pub settle_blocks : ℕ → ℕ → List ContextBlock → List ContextBlock × ℕ
settle_blocks budget used [] = ([], used)
settle_blocks budget used (b ∷ bs) =
    let rest = settle_blocks budget (used + charge budget used b) bs in
    (settled_block budget used b ∷ rest.0, rest.1)

-- `select_context_blocks`
unfoldable pub select_context_blocks : List ContextBlock → ℤ → ContextBlockSelection
unfolding settle_blocks
select_context_blocks blocks token_budget =
    let budget = pos_part token_budget in
    let result = settle_blocks budget 0 (ordered_blocks blocks) in
    record {
      blocks = result.0;
      included_block_ids = map (λ b. b.block_id) (select (λ b. b.included) result.0);
      dropped_block_ids = map (λ b. b.block_id) (select (λ b. not b.included) result.0);
      used_tokens = result.1;
      token_budget = budget;
    }
