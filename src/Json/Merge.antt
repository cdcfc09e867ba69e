-- ===== src/Json/Merge.antt =====
-- `_merge_mapping` of app/services/task_runtime/checkpoint_repo.py.
use ai_jin_shu.Common.{
  ◌≡◌, refl, ap, ◌∙◌, Bool, true, false, String, str_eq, eq_iff, arith, if◌then◌else◌,
}
use ai_jin_shu.Json.{Json, null, obj, Fields, end, field, get, set_key, pop}

unfoldable pub merge_mapping : Fields → Fields → Fields
merge_mapping base end = base
merge_mapping base (field k null rest) = merge_mapping (pop k base) rest
merge_mapping base (field k (obj d) rest) =
    let nested : Fields = elim (get k base) [ obj old ↦ merge_mapping old d | _ ↦ d ] in
    merge_mapping (set_key k (obj nested) base) rest
merge_mapping base (field k v rest) = merge_mapping (set_key k v base) rest

-- The keys of a Python dict are distinct.
abbrev pub has : String → Fields → Bool
has k end = false
has k (field j v d) = let rest = has k d in if str_eq j k then true else rest

abbrev pub DistinctKeys : Fields → Type 0
DistinctKeys end = Unit
DistinctKeys (field k v d) = (has k d ≡ false) × DistinctKeys d

pub get-set_key :
    (k j : String) (v : Json) (d : Fields)
    → get j (set_key k v d) ≡ (if str_eq k j then v else get j d)
unfolding get set_key
get-set_key k j v end = refl
get-set_key k j v (field i w d) =
    ground (arith, eq_iff k j, eq_iff i k, eq_iff i j, get-set_key k j v d)

pub get-pop : (k j : String) (d : Fields) → get j (pop k d) ≡ (if str_eq k j then null else get j d)
unfolding get pop
get-pop k j end = ground arith
get-pop k j (field i w d) = ground (arith, eq_iff k j, eq_iff i k, eq_iff i j, get-pop k j d)

-- What one key holds after a merge, from what it held and the update for it.
abbrev pub merged : Json → Json → Json
merged old null = null
merged (obj d) (obj u) = obj (merge_mapping d u)
merged old v = v

-- One update is one write, or one removal.
merge-obj :
    (k : String) (u base rest : Fields)
    → merge_mapping base (field k (obj u) rest)
      ≡ merge_mapping (set_key k (merged (get k base) (obj u)) base) rest
unfolding merge_mapping
merge-obj k u base rest = ground arith

after_write :
    (j k : String) (v m : Json) (base b rest : Fields)
    → get j b ≡ (if str_eq k j then merged (get k base) v else get j base)
    → m ≡ (if has j rest then merged (get j b) (get j rest) else get j b)
    → has k rest ≡ false
    → m ≡ (
        if has j (field k v rest) then merged (get j base) (get j (field k v rest)) else get j base)
unfolding get
after_write j k v m base b rest w ih fresh = ground (arith, eq_iff k j)

-- After a merge of an update whose keys are distinct each key holds what its own update makes of its
-- old value, and a key with no update is kept.
pub get-merge_mapping :
    (j : String) (base u : Fields)
    → DistinctKeys u
    → get j (merge_mapping base u) ≡ (if has j u then merged (get j base) (get j u) else get j base)
unfolding merge_mapping
get-merge_mapping j base end h = refl
get-merge_mapping j base (field k null rest) h =
    after_write j k null _ base (pop k base) rest (get-pop k j base)
      (get-merge_mapping j (pop k base) rest h.1) h.0
get-merge_mapping j base (field k (obj u) rest) h =
    let b = set_key k (merged (get k base) (obj u)) base in
    after_write j k (obj u) _ base b rest (get-set_key k j _ base)
      (ap (get j) (merge-obj k u base rest) ∙ get-merge_mapping j b rest h.1) h.0
get-merge_mapping j base (field k v rest) h =
    after_write j k v _ base (set_key k v base) rest (get-set_key k j v base)
      (get-merge_mapping j (set_key k v base) rest h.1) h.0
