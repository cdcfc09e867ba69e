-- ===== src/Context/Applied/Required.antt =====
-- What `_apply_context_block_selection` of app/services/memory/context.py leaves of the fields that must
-- be in a prompt.
use ai_jin_shu.Common.{
  ℕ, zero, suc, all, take, ◌≡◌, refl, subst, ◌∙◌, ◌⊎◌, inl, inr, Bool, true, false, not, String,
  List, [], ◌∷◌, str_eq, arith, All, Bool-cases, leb, ◌+◌,
}
use ai_jin_shu.Common.Sorting.{All-sort_by}
use ai_jin_shu.Common.Int.{ℤ, pos_part}
use ai_jin_shu.Json.{Json, Fields, get, set_key}
use ai_jin_shu.Json.Merge.{get-set_key}
use ai_jin_shu.Context.{
  ContextBlock, is_required, is_empty, approx, block_first, ordered_blocks, settled_block, charge,
  settle_blocks, select_context_blocks,
}
use ai_jin_shu.Context.Applied.{ContextSource, context_blocks, apply_context_block_selection}
use ai_jin_shu.Context.Applied.Cleared.{
  names, IsBlank, is_empty-IsBlank, Spares, clear_dropped-keeps,
}

-- A block before the selection that does not name `j`, or is required and has the value of `j`.
abbrev Holds : String → Json → ContextBlock → Type 0
Holds j v b = (names j b ≡ false) ⊎ ((is_required b ≡ true) × (b.value ≡ v))

settled_block-names :
    (j : String) (budget used : ℕ) (b : ContextBlock)
    → names j (settled_block budget used b) ≡ names j b
settled_block-names j budget used b = elim (Bool-cases (is_empty b.value)) [
  | inl e ↦ rw e refl
  | inr e ↦ rw e (elim (Bool-cases (is_required b)) [
    | inl r ↦ rw r refl
    | inr r ↦
        rw r (elim (Bool-cases (leb (used + approx b) budget)) [
          | inl f ↦ rw f refl
          | inr f ↦ rw f refl
        ])
  ])
]

settled_block-Spares :
    (j : String) (v : Json) (budget used : ℕ) (b : ContextBlock)
    → Holds j v b
    → Spares j v (settled_block budget used b)
settled_block-Spares j v budget used b (inl n) = inr (inl (settled_block-names j budget used b ∙ n))
settled_block-Spares j v budget used b (inr (r, q)) = elim (Bool-cases (is_empty b.value)) [
  | inl e ↦ inr (inr (subst IsBlank q (is_empty-IsBlank b.value e)))
  | inr e ↦ inl (rw e (rw r refl))
]

settle_blocks-Spares :
    (j : String) (v : Json) (budget used : ℕ) (bs : List ContextBlock)
    → All (Holds j v) bs
    → All (Spares j v) (settle_blocks budget used bs).0
unfolding settle_blocks
settle_blocks-Spares j v budget used [] h = tt
settle_blocks-Spares j v budget used (b ∷ bs) h = (
  settled_block-Spares j v budget used b h.0,
  settle_blocks-Spares j v budget (used + charge budget used b) bs h.1,
)

-- The fields of the required blocks.
pub data RequiredField : Type 0 where
  global_bible : RequiredField
  outline_contract : RequiredField
  previous_transition_state : RequiredField
  anti_repeat_constraints : RequiredField
  transition_constraints : RequiredField

abbrev pub field_name : RequiredField → String
field_name global_bible = "global_bible"
field_name outline_contract = "outline_contract"
field_name previous_transition_state = "previous_transition_state"
field_name anti_repeat_constraints = "anti_repeat_constraints"
field_name transition_constraints = "transition_constraints"

abbrev unnamed : String → ContextBlock → Bool
unnamed j b = not (names j b)

unnamed-Holds :
    (j : String) (v : Json) (bs : List ContextBlock)
    → all (unnamed j) bs ≡ true
    → All (Holds j v) bs
unnamed-Holds j v [] h = tt
unnamed-Holds j v (b ∷ bs) h = (inl (ground arith), unnamed-Holds j v bs (ground arith))

-- The first block holds the field, and no later one names it.
abbrev HeadHolds : String → Json → List ContextBlock → Type 0
HeadHolds j v [] = Unit
HeadHolds j v (b ∷ bs) = Holds j v b × (all (unnamed j) bs ≡ true)

abbrev drop : ℕ → List ContextBlock → List ContextBlock
drop zero bs = bs
drop (suc n) [] = []
drop (suc n) (b ∷ bs) = drop n bs

drop-Holds :
    (j : String) (v : Json) (n : ℕ) (bs : List ContextBlock)
    → all (unnamed j) (take n bs) ≡ true
    → HeadHolds j v (drop n bs)
    → All (Holds j v) bs
drop-Holds j v zero [] h o = tt
drop-Holds j v zero (b ∷ bs) h o = (o.0, unnamed-Holds j v bs o.1)
drop-Holds j v (suc n) [] h o = tt
drop-Holds j v (suc n) (b ∷ bs) h o = (inl (ground arith), drop-Holds j v n bs (ground arith) o)

context_blocks-Holds :
    (estimate : Json → ℕ) (context : Fields) (f : RequiredField)
    → All (Holds (field_name f) (get (field_name f) context)) (context_blocks estimate context)
context_blocks-Holds estimate context global_bible =
    drop-Holds "global_bible" (get "global_bible" context) 0 (context_blocks estimate context) refl
      (inr (refl, refl), refl)
context_blocks-Holds estimate context outline_contract =
    drop-Holds "outline_contract" (get "outline_contract" context) 1
      (context_blocks estimate context) refl (inr (refl, refl), refl)
context_blocks-Holds estimate context previous_transition_state =
    drop-Holds "previous_transition_state" (get "previous_transition_state" context) 6
      (context_blocks estimate context) refl (inr (refl, refl), refl)
context_blocks-Holds estimate context anti_repeat_constraints =
    drop-Holds "anti_repeat_constraints" (get "anti_repeat_constraints" context) 12
      (context_blocks estimate context) refl (inr (refl, refl), refl)
context_blocks-Holds estimate context transition_constraints =
    drop-Holds "transition_constraints" (get "transition_constraints" context) 13
      (context_blocks estimate context) refl (inr (refl, refl), refl)

get-set_other :
    (k j : String) (v : Json) (d : Fields) → str_eq k j ≡ false → get j (set_key k v d) ≡ get j d
get-set_other k j v d h = get-set_key k j v d ∙ rw h refl

-- Writes of the keys of the report do not touch another field.
get-set_report :
    (j : String) (d : Fields) (a b c e : Json)
    → str_eq "budget_total" j ≡ false
    → str_eq "budget_used" j ≡ false
    → str_eq "context_blocks" j ≡ false
    → str_eq "context_selector_meta" j ≡ false
    → get j (
        set_key "budget_total" a (
          set_key "budget_used" b
            (set_key "context_blocks" c (set_key "context_selector_meta" e d))))
      ≡ get j d
get-set_report j d a b c e h i k l =
    get-set_other "budget_total" j a _ h
    ∙ get-set_other "budget_used" j b _ i
    ∙ get-set_other "context_blocks" j c _ k
    ∙ get-set_other "context_selector_meta" j e d l

-- No required field is a key of the report.
abbrev IsApart : String → Type 0
IsApart j =
    (str_eq "budget_total" j ≡ false)
    × (str_eq "budget_used" j ≡ false)
    × (str_eq "context_blocks" j ≡ false)
    × (str_eq "context_selector_meta" j ≡ false)

field_name-IsApart : (f : RequiredField) → IsApart (field_name f)
field_name-IsApart global_bible = (refl, refl, refl, refl)
field_name-IsApart outline_contract = (refl, refl, refl, refl)
field_name-IsApart previous_transition_state = (refl, refl, refl, refl)
field_name-IsApart anti_repeat_constraints = (refl, refl, refl, refl)
field_name-IsApart transition_constraints = (refl, refl, refl, refl)

-- Whatever the budget, the fields of the required blocks are the same after the selection as before.
pub required_fields_kept :
    (estimate : Json → ℕ) (context : Fields) (sources : List ContextSource) (token_budget : ℤ)
    (f : RequiredField)
    → get (field_name f) (apply_context_block_selection estimate context sources token_budget).0
      ≡ get (field_name f) context
unfolding apply_context_block_selection select_context_blocks
required_fields_kept estimate context sources token_budget f =
    let j = field_name f in
    let v = get j context in
    let bs = ordered_blocks (context_blocks estimate context) in
    let apart = field_name-IsApart f in
    get-set_report j _ _ _ _ _ apart.0 apart.1 apart.2 apart.3
    ∙ clear_dropped-keeps j v (settle_blocks (pos_part token_budget) 0 bs).0 context refl (
        settle_blocks-Spares j v (pos_part token_budget) 0 bs (
          All-sort_by block_first (Holds j v) (context_blocks estimate context)
            (context_blocks-Holds estimate context f)))
