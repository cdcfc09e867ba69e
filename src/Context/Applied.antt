-- ===== src/Context/Applied.antt =====
-- `_apply_context_block_selection` of app/services/memory/context.py: the context of a chapter without
-- the blocks that do not fit. `estimate` is `_estimate_source_tokens`, which measures a text with the
-- tokenizer of the model.
pub mod Cleared
pub mod Required
use ai_jin_shu.Common.{
  ℕ, Bool, true, false, not, ◌&&◌, Option, none, some, String, List, [], ◌∷◌, map, any, str_eq,
  if◌then◌else◌,
}
use ai_jin_shu.Common.Int.{ℤ, pos}
use ai_jin_shu.Json.{
  Json, Items, Fields, null, bool, num, text, arr, obj, nil, cons, end, field, get, set_key,
  as_dict, or_value,
}
use ai_jin_shu.Context.{ContextBlock, ContextBlockSelection, approx, select_context_blocks}

-- An entry of `context_sources`: of its keys, those that are read or written here.
pub record ContextSource : Type 0 where
  pub source_type : String
  pub included : Bool

-- `_empty_context_value`
abbrev pub empty_context_value : Json → Json
empty_context_value (arr vs) = arr nil
empty_context_value (obj d) = obj end
empty_context_value (text s) = text ""
empty_context_value v = null

-- `k in d`
abbrev pub has_key : String → Fields → Bool
has_key k end = false
has_key k (field j v d) = let rest = has_key k d in if str_eq j k then true else rest

-- `context[field_name] = _empty_context_value(context[field_name])`, if it is there.
abbrev pub clear : String → Fields → Fields
clear k d = if has_key k d then set_key k (empty_context_value (get k d)) d else d

unfoldable pub clear_fields : List String → Fields → Fields
clear_fields [] d = d
clear_fields (k ∷ ks) d = clear_fields ks (clear k d)

-- The loop over `selection.blocks`.
unfoldable pub clear_dropped : List ContextBlock → Fields → Fields
unfolding clear_fields
clear_dropped [] d = d
clear_dropped (b ∷ bs) d = clear_dropped bs (if b.included then d else clear_fields b.field_names d)

-- A block of `_apply_context_block_selection` before the selection.
abbrev pub context_block : String → String → ℤ → ℕ → Json → List String → ContextBlock
context_block id tier priority tokens v names = record {
  block_id = id;
  source_type = id;
  tier = tier;
  priority = priority;
  approx_tokens = pos tokens;
  value = v;
  field_names = names;
  included = false;
  drop_reason = "";
}

module _ (estimate : Json → ℕ) (context : Fields) where
  -- A block whose value is the field of its name.
  abbrev pub own_block : String → String → ℕ → ContextBlock
  own_block id tier priority =
      let v = get id context in context_block id tier (pos priority) (estimate v) v (id ∷ [])

  -- The list `blocks`
  abbrev pub context_blocks : List ContextBlock
  context_blocks =
      let ledger = get "thread_ledger_text" context in
      let window = get "recent_window" context in
      own_block "global_bible" "required" 1
      ∷ own_block "outline_contract" "required" 1
      ∷ context_block "thread_ledger" "preferred" (pos 2) (estimate ledger) ledger
          ("thread_ledger" ∷ "thread_ledger_text" ∷ [])
      ∷ own_block "character_focus_pack" "preferred" 3
      ∷ own_block "story_bible_context" "preferred" 3
      ∷ own_block "recent_advancement_window" "preferred" 4
      ∷ own_block "previous_transition_state" "required" 5
      ∷ own_block "current_volume_arc_state" "optional" 6
      ∷ own_block "book_progression_state" "optional" 7
      ∷ context_block "recent_window" "preferred" (pos 8) (estimate window) window
          ("summaries" ∷ "recent_window" ∷ [])
      ∷ own_block "volume_brief" "optional" 9
      ∷ own_block "knowledge_chunks" "optional" 10
      ∷ own_block "anti_repeat_constraints" "required" 11
      ∷ own_block "transition_constraints" "required" 12
      ∷ []

abbrev pub texts : List String → Items
texts [] = nil
texts (s ∷ ss) = cons (text s) (texts ss)

abbrev pub block_metadata : ContextBlock → Json
block_metadata b = obj (
    field "block_id" (text b.block_id) (
      field "source_type" (text b.source_type) (
        field "tier" (text b.tier) (
          field "priority" (num b.priority) (
            field "approx_tokens" (num (pos (approx b))) (
              field "included" (bool b.included)
                (field "drop_reason" (text b.drop_reason) end)))))))

abbrev pub blocks_metadata : List ContextBlock → Items
blocks_metadata [] = nil
blocks_metadata (b ∷ bs) = cons (block_metadata b) (blocks_metadata bs)

-- `as_metadata`
abbrev pub as_metadata : ContextBlockSelection → Fields
as_metadata s = field "included_block_ids" (arr (texts s.included_block_ids)) (
    field "dropped_block_ids" (arr (texts s.dropped_block_ids)) (
      field "used_tokens" (num (pos s.used_tokens)) (
        field "token_budget" (num (pos s.token_budget))
          (field "blocks" (arr (blocks_metadata s.blocks)) end))))

-- `d.update(e)`
abbrev pub updated : Fields → Fields → Fields
updated d end = d
updated d (field k v e) = updated (set_key k v d) e

-- `selected_by_source.get(source_type)`: the last block of that source.
abbrev pub by_source : String → List ContextBlock → Option ContextBlock
by_source t [] = none
by_source t (b ∷ bs) = elim (by_source t bs) [
  | some c ↦ some c
  | none ↦ if str_eq b.source_type t then some b else none
]

abbrev pub mark_source : List ContextBlock → ContextSource → ContextSource
mark_source bs s = elim (by_source s.source_type bs) [
  | none ↦ s
  | some b ↦ record s { included = s.included && b.included }
]

-- `_apply_context_block_selection`: the context and its sources.
unfoldable pub apply_context_block_selection :
    (Json → ℕ) → Fields → List ContextSource → ℤ → Fields × List ContextSource
unfolding clear_dropped select_context_blocks
apply_context_block_selection estimate context sources token_budget =
    let s = select_context_blocks (context_blocks estimate context) token_budget in
    let d = clear_dropped s.blocks context in
    let meta = as_metadata s in
    (
      set_key "budget_total" (num token_budget) (
          set_key "budget_used" (num (pos s.used_tokens)) (
            set_key "context_blocks" (get "blocks" meta) (
              set_key "context_selector_meta"
                (obj (updated (as_dict (get "context_selector_meta" d)) meta)) d))),
      map (mark_source s.blocks) sources,
    )
