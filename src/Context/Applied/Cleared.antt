-- ===== src/Context/Applied/Cleared.antt =====
-- What `_apply_context_block_selection` of app/services/memory/context.py leaves of a context.
use ai_jin_shu.Common.{
  ◌≡◌, refl, sym, ◌∙◌, ap, ◌⊎◌, inl, inr, Bool, true, false, String, List, [], ◌∷◌, any, str_eq,
  arith, All, Bool-cases, if◌then◌else◌, eq_iff,
}
use ai_jin_shu.Json.{
  Json, Fields, null, bool, num, real, text, arr, obj, nil, cons, end, field, get,
}
use ai_jin_shu.Json.Merge.{get-set_key}
use ai_jin_shu.Context.{ContextBlock, is_empty}
use ai_jin_shu.Context.Applied.{empty_context_value, has_key, clear, clear_fields, clear_dropped}

abbrev pub names : String → ContextBlock → Bool
names j b = any (λ k. str_eq k j) b.field_names

get-missing : (k : String) (d : Fields) → has_key k d ≡ false → get k d ≡ null
unfolding get
get-missing k end h = refl
get-missing k (field j v d) h = ground (arith, get-missing k d)

-- A value that is already empty is its own empty value.
abbrev pub IsBlank : Json → Type 0
IsBlank v = empty_context_value v ≡ v

pub is_empty-IsBlank : (v : Json) → is_empty v ≡ true → IsBlank v
is_empty-IsBlank null h = refl
is_empty-IsBlank (bool b) h = ground arith
is_empty-IsBlank (num z) h = ground arith
is_empty-IsBlank (real z) h = ground arith
is_empty-IsBlank (text s) h = ap text (sym ((eq_iff s "").0 h))
is_empty-IsBlank (arr nil) h = refl
is_empty-IsBlank (arr (cons v vs)) h = ground arith
is_empty-IsBlank (obj end) h = refl
is_empty-IsBlank (obj (field k v d)) h = ground arith

get-clear :
    (j k : String) (d : Fields)
    → get j (clear k d) ≡ (if str_eq k j then empty_context_value (get j d) else get j d)
get-clear j k d = elim (Bool-cases (has_key k d)) [
  | inl e ↦ rw e (
      get-set_key k j (empty_context_value (get k d)) d ∙ elim (Bool-cases (str_eq k j)) [
        | inl q ↦ rw q (ap (λ i. empty_context_value (get i d)) ((eq_iff k j).0 q))
        | inr q ↦ rw q refl
      ])
  | inr e ↦ rw e (elim (Bool-cases (str_eq k j)) [
    | inl q ↦
        let gone = ap (λ i. get i d) (sym ((eq_iff k j).0 q)) ∙ get-missing k d e in
        rw q (gone ∙ ap empty_context_value (sym gone))
    | inr q ↦ rw q refl
  ])
]

-- A field that the blocks to drop do not name, or that is blank, keeps its value.
clear-keeps :
    (j k : String) (v : Json) (d : Fields)
    → get j d ≡ v
    → (str_eq k j ≡ false) ⊎ IsBlank v
    → get j (clear k d) ≡ v
clear-keeps j k v d h (inl e) = get-clear j k d ∙ rw e h
clear-keeps j k v d h (inr e) = get-clear j k d ∙ elim (Bool-cases (str_eq k j)) [
  | inl q ↦ rw q (ap empty_context_value h ∙ e)
  | inr q ↦ rw q h
]

clear_fields-keeps :
    (j : String) (v : Json) (ks : List String) (d : Fields)
    → get j d ≡ v
    → (any (λ k. str_eq k j) ks ≡ false) ⊎ IsBlank v
    → get j (clear_fields ks d) ≡ v
unfolding clear_fields
clear_fields-keeps j v [] d h o = h
clear_fields-keeps j v (k ∷ ks) d h (inl e) =
    clear_fields-keeps j v ks (clear k d) (clear-keeps j k v d h (inl (ground arith)))
      (inl (ground arith))
clear_fields-keeps j v (k ∷ ks) d h (inr e) =
    clear_fields-keeps j v ks (clear k d) (clear-keeps j k v d h (inr e)) (inr e)

-- A block of the selection that leaves the field `j` of value `v` alone.
abbrev pub Spares : String → Json → ContextBlock → Type 0
Spares j v b = (b.included ≡ true) ⊎ ((names j b ≡ false) ⊎ IsBlank v)

pub clear_dropped-keeps :
    (j : String) (v : Json) (bs : List ContextBlock) (d : Fields)
    → get j d ≡ v
    → All (Spares j v) bs
    → get j (clear_dropped bs d) ≡ v
unfolding clear_dropped
clear_dropped-keeps j v [] d h o = h
clear_dropped-keeps j v (b ∷ bs) d h (inl e, o) =
    clear_dropped-keeps j v bs (if b.included then d else clear_fields b.field_names d) (rw e h) o
clear_dropped-keeps j v (b ∷ bs) d h (inr e, o) =
    clear_dropped-keeps j v bs (if b.included then d else clear_fields b.field_names d)
      (elim (Bool-cases b.included) [
        | inl q ↦ rw q h
        | inr q ↦ rw q (clear_fields-keeps j v b.field_names d h e)
      ])
      o
