-- ===== src/Context/Budgeted.antt =====
-- What `select_context_blocks` of app/services/memory/context_blocks.py takes into a prompt.
use ai_jin_shu.Common.{
  ℕ, ◌+◌, ◌≤◌, ◌≡◌, true, false, not, ◌&&◌, ◌||◌, List, [], ◌∷◌, arith, max, ◌==◌, Bool-cases, inl,
  inr, if◌then◌else◌,
}
use ai_jin_shu.Common.Sorting.{sum_by, insert_by, sort_by, sum-insert_by, sum-sort_by}
use ai_jin_shu.Common.Int.{ℤ, pos_part}
use ai_jin_shu.Context.{
  ContextBlock, is_required, is_empty, approx, block_first, ordered_blocks, charge, settle_blocks,
  select_context_blocks,
}

-- The tokens of a block if it must be taken: it is required and not empty.
abbrev pub must_spend : ContextBlock → ℕ
must_spend b = if is_required b && not (is_empty b.value) then approx b else 0

abbrev pub required_tokens : List ContextBlock → ℕ
required_tokens bs = sum_by must_spend bs

-- No required tokens come after a block that is not required.
abbrev RequiredFirst : List ContextBlock → Type 0
RequiredFirst [] = Unit
RequiredFirst (b ∷ bs) = ((is_required b || required_tokens bs == 0) ≡ true) × RequiredFirst bs

block_first-keeps :
    (b c : ContextBlock) → block_first b c ≡ true → is_required c ≡ true → is_required b ≡ true
block_first-keeps b c h k = ground arith

block_first-else :
    (b c : ContextBlock) → block_first b c ≡ false → is_required b ≡ true → is_required c ≡ true
block_first-else b c h k = ground arith

insert-RequiredFirst :
    (b : ContextBlock) (cs : List ContextBlock)
    → RequiredFirst cs
    → RequiredFirst (insert_by block_first b cs)
unfolding insert_by
insert-RequiredFirst b [] h = (ground arith, tt)
insert-RequiredFirst b (c ∷ cs) h = elim (Bool-cases (block_first b c)) [
  | inl e ↦ rw e (ground (arith, block_first-keeps b c e), h)
  | inr e ↦ rw e (
    ground (arith, block_first-else b c e, sum-insert_by block_first must_spend b cs),
    insert-RequiredFirst b cs h.1,
  )
]

ordered_blocks-RequiredFirst : (bs : List ContextBlock) → RequiredFirst (ordered_blocks bs)
unfolding sort_by
ordered_blocks-RequiredFirst [] = tt
ordered_blocks-RequiredFirst (b ∷ bs) =
    insert-RequiredFirst b (ordered_blocks bs) (ordered_blocks-RequiredFirst bs)

settle_blocks-le :
    (budget used : ℕ) (bs : List ContextBlock)
    → RequiredFirst bs
    → (settle_blocks budget used bs).1 ≤ max budget (used + required_tokens bs)
unfolding settle_blocks
settle_blocks-le budget used [] h = ground arith
settle_blocks-le budget used (b ∷ bs) h =
    ground (arith, settle_blocks-le budget (used + charge budget used b) bs h.1)

-- The tokens of the blocks that are included.
abbrev pub included_tokens : List ContextBlock → ℕ
included_tokens [] = 0
included_tokens (b ∷ bs) = (if b.included then approx b else 0) + included_tokens bs

settle_blocks-included :
    (budget used : ℕ) (bs : List ContextBlock)
    → (settle_blocks budget used bs).1 ≡ used + included_tokens (settle_blocks budget used bs).0
unfolding settle_blocks
settle_blocks-included budget used [] = omega arith
settle_blocks-included budget used (b ∷ bs) =
    ground (arith, settle_blocks-included budget (used + charge budget used b) bs)

-- The blocks that are included take the tokens that the selection reports, which are at the most the
-- budget, or at the most what the required blocks that are not empty take when that is more.
pub selection_within_budget :
    (blocks : List ContextBlock) (token_budget : ℤ)
    → let s = select_context_blocks blocks token_budget in
      (s.used_tokens ≡ included_tokens s.blocks)
      × (s.used_tokens ≤ max (pos_part token_budget) (required_tokens blocks))
unfolding select_context_blocks
selection_within_budget blocks token_budget = (
  omega (arith, settle_blocks-included (pos_part token_budget) 0 (ordered_blocks blocks)),
  omega (
    arith,
    settle_blocks-le (pos_part token_budget) 0 (ordered_blocks blocks)
        (ordered_blocks-RequiredFirst blocks),
    sum-sort_by block_first must_spend blocks,
  ),
)
