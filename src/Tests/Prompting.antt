-- ===== src/Tests/Prompting.antt =====
-- Runs of the selection of context blocks.
use ai_jin_shu.Common.{ℕ, ◌≤◌, ◌≡◌, refl, false, max, String, List, [], ◌∷◌}
use ai_jin_shu.Common.Sorting.{sort_by, insert_by}
use ai_jin_shu.Common.Int.{pos}
use ai_jin_shu.Json.{Json, Fields, text, end, field, get, set_key}
use ai_jin_shu.Context.{ContextBlock, settle_blocks, select_context_blocks}
use ai_jin_shu.Context.Budgeted.{included_tokens, required_tokens, selection_within_budget}
use ai_jin_shu.Context.Applied.{clear_fields, clear_dropped, apply_context_block_selection}

abbrev block : String → String → ℕ → ℕ → Json → ContextBlock
block id tier priority tokens v = record {
  block_id = id;
  source_type = id;
  tier = tier;
  priority = pos priority;
  approx_tokens = pos tokens;
  value = v;
  field_names = [];
  included = false;
  drop_reason = "";
}

-- Three blocks much like those of tests/test_context_blocks.py.
abbrev three_blocks : List ContextBlock
three_blocks =
    block "rag" "optional" 9 40 (text "notes")
    ∷ block "recent" "preferred" 2 40 (text "the last chapter")
    ∷ block "outline" "required" 1 90 (text "the main line")
    ∷ []

keeps_required : (select_context_blocks three_blocks (pos 120)).included_block_ids ≡ "outline" ∷ []
unfolding select_context_blocks sort_by insert_by settle_blocks
keeps_required = refl

drops_the_rest :
    (select_context_blocks three_blocks (pos 120)).dropped_block_ids ≡ "recent" ∷ "rag" ∷ []
unfolding select_context_blocks sort_by insert_by settle_blocks
drops_the_rest = refl

selection_within_budget_example :
    ((select_context_blocks three_blocks (pos 80)).used_tokens
      ≡ included_tokens (select_context_blocks three_blocks (pos 80)).blocks)
    × ((select_context_blocks three_blocks (pos 80)).used_tokens
        ≤ max 80 (required_tokens three_blocks))
selection_within_budget_example = selection_within_budget three_blocks (pos 80)

abbrev chapter_context : Fields
chapter_context =
    field "global_bible" (text "the rules of the world")
      (field "volume_brief" (text "the second volume") end)

drops_volume_brief :
    get "volume_brief" (apply_context_block_selection (λ v. 50) chapter_context [] (pos 60)).0
    ≡ text ""
unfolding apply_context_block_selection select_context_blocks sort_by insert_by settle_blocks
    clear_dropped clear_fields get set_key
drops_volume_brief = refl
