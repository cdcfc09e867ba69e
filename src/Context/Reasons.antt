-- ===== src/Context/Reasons.antt =====
-- What `select_context_blocks` of app/services/memory/context_blocks.py does with each block.
use ai_jin_shu.Common.{
  ℕ, ◌+◌, ◌≡◌, refl, Bool, not, ◌&&◌, ◌||◌, String, List, [], ◌∷◌, map, str_eq, arith, All,
  Bool-cases, inl, inr, if◌then◌else◌, leb, select,
}
use ai_jin_shu.Common.Sorting.{count-sort_by}
use ai_jin_shu.Common.Int.{ℤ, pos_part}
use ai_jin_shu.Common.Table.{count, weight}
use ai_jin_shu.Context.{
  ContextBlock, is_required, is_empty, approx, block_first, ordered_blocks, settled_block, charge,
  settle_blocks, select_context_blocks,
}

abbrev pub has_id : String → ContextBlock → Bool
has_id id b = str_eq b.block_id id

-- A block is left out for one of two reasons: it is empty, or it is not required and was too large.
abbrev pub IsExplained : ContextBlock → Type 0
IsExplained b =
    (b.included ≡ (not (is_empty b.value) && (is_required b || str_eq b.drop_reason "")))
    × (str_eq b.drop_reason "empty" ≡ is_empty b.value)
    × (str_eq b.drop_reason "" ≡ b.included)

settled_block-IsExplained :
    (budget used : ℕ) (b : ContextBlock) → IsExplained (settled_block budget used b)
settled_block-IsExplained budget used b = elim (Bool-cases (is_empty b.value)) [
  | inl e ↦ rw e (rw e (refl, refl, refl))
  | inr e ↦ rw e (elim (Bool-cases (is_required b)) [
    | inl r ↦ rw r (rw e (rw r (refl, refl, refl)))
    | inr r ↦ rw r (elim (Bool-cases (leb (used + approx b) budget)) [
      | inl f ↦ rw f (rw e (rw r (refl, refl, refl)))
      | inr f ↦ rw f (rw e (rw r (refl, refl, refl)))
    ])
  ])
]

settle_blocks-IsExplained :
    (budget used : ℕ) (bs : List ContextBlock) → All IsExplained (settle_blocks budget used bs).0
unfolding settle_blocks
settle_blocks-IsExplained budget used [] = tt
settle_blocks-IsExplained budget used (b ∷ bs) = (
  settled_block-IsExplained budget used b,
  settle_blocks-IsExplained budget (used + charge budget used b) bs,
)

weight-settled :
    (id : String) (budget used : ℕ) (b : ContextBlock)
    → weight (has_id id) (settled_block budget used b) ≡ weight (has_id id) b
weight-settled id budget used b = ground arith

count-settle :
    (id : String) (budget used : ℕ) (bs : List ContextBlock)
    → count (has_id id) (settle_blocks budget used bs).0 ≡ count (has_id id) bs
unfolding settle_blocks
count-settle id budget used [] = refl
count-settle id budget used (b ∷ bs) = omega (
  arith,
  weight-settled id budget used b,
  count-settle id budget (used + charge budget used b) bs,
)

-- How often an id stands in a list.
abbrev pub occurs : String → List String → ℕ
occurs id [] = 0
occurs id (x ∷ xs) = (if str_eq x id then 1 else 0) + occurs id xs

occurs-split :
    (id : String) (bs : List ContextBlock)
    → occurs id (map (λ b. b.block_id) (select (λ b. b.included) bs))
        + occurs id (map (λ b. b.block_id) (select (λ b. not b.included) bs))
      ≡ count (has_id id) bs
occurs-split id [] = refl
occurs-split id (b ∷ bs) = elim (Bool-cases b.included) [
  | inl e ↦ rw e (omega (arith, occurs-split id bs))
  | inr e ↦ rw e (omega (arith, occurs-split id bs))
]

-- Each id of a block is reported as included or as dropped, once for each block that has it, and each
-- block of the selection is included unless it is empty, or is not required and has a drop reason;
-- the reason says whether it was empty, and only an included block has none.
pub selection_reports_all :
    (blocks : List ContextBlock) (token_budget : ℤ) (id : String)
    → let s = select_context_blocks blocks token_budget in
      (occurs id s.included_block_ids + occurs id s.dropped_block_ids ≡ count (has_id id) blocks)
      × All IsExplained s.blocks
unfolding select_context_blocks
selection_reports_all blocks token_budget id =
    let budget = pos_part token_budget in
    (
      omega (
        arith,
        occurs-split id (settle_blocks budget 0 (ordered_blocks blocks)).0,
        count-settle id budget 0 (ordered_blocks blocks),
        count-sort_by block_first (has_id id) blocks,
      ),
      settle_blocks-IsExplained budget 0 (ordered_blocks blocks),
    )
