-- ===== src/Checkpoints.antt =====
-- app/services/task_runtime/checkpoint_repo.py and app/services/task_runtime/cursor_service.py: the
-- completed units of a task, its resume cursor, and the unit that a resumed task goes on with. A unit
-- is a chapter, so its number is natural. The transactions are sequential here, so the insert of
-- `mark_unit_completed` meets no row of a concurrent one.
pub mod Next
pub mod Marks
pub mod Cursor
use ai_jin_shu.Common.{
  ℕ, zero, suc, ◌+◌, ◌-◌, max, Bool, true, false, ◌&&◌, Option, none, some, String, List, [], ◌∷◌,
  ◌++◌, str_eq, leb, ◌==◌, any, if◌then◌else◌,
}
use ai_jin_shu.Common.Int.{ℤ, pos}
use ai_jin_shu.Common.Table.{find, put}
use ai_jin_shu.Json.{Json, null, num, text, obj, Fields, end, get, set_key, pop, as_dict, truthy}
use ai_jin_shu.Json.Merge.{merge_mapping}

-- CreationTaskCheckpoint
pub record CreationTaskCheckpoint : Type 0 where
  pub creation_task_id : ℕ
  pub unit_type : String
  pub unit_no : ℕ
  pub partition : Option String
  pub status : String
  pub payload_json : Fields
  pub updated_at : ℕ

-- The arguments `creation_task_id`, `unit_type` and `partition`.
pub record Scope : Type 0 where
  pub creation_task_id : ℕ
  pub unit_type : String
  pub partition : Option String

-- `column == value`, where None is `IS NULL`.
abbrev pub same_partition : Option String → Option String → Bool
same_partition none none = true
same_partition (some a) (some b) = str_eq a b
same_partition a b = false

abbrev pub in_scope : Scope → CreationTaskCheckpoint → Bool
in_scope s r =
    (r.creation_task_id == s.creation_task_id)
    && str_eq r.unit_type s.unit_type
    && same_partition r.partition s.partition

abbrev pub is_unit : Scope → ℕ → CreationTaskCheckpoint → Bool
is_unit s n r = in_scope s r && (r.unit_no == n)

abbrev pub is_done : CreationTaskCheckpoint → Bool
is_done r = str_eq r.status "completed"

-- `payload or old or {}`
abbrev pub payload_or : Option Fields → Fields → Fields
payload_or none old = old
payload_or (some end) old = old
payload_or (some d) old = d

abbrev pub completed_row : ℕ → Option Fields → CreationTaskCheckpoint → CreationTaskCheckpoint
completed_row now payload r = record r {
  status = "completed";
  payload_json = payload_or payload r.payload_json;
  updated_at = now;
}

abbrev pub new_row : ℕ → Scope → ℕ → Option Fields → CreationTaskCheckpoint
new_row now s n payload = record {
  creation_task_id = s.creation_task_id;
  unit_type = s.unit_type;
  unit_no = n;
  partition = s.partition;
  status = "completed";
  payload_json = payload_or payload end;
  updated_at = now;
}

-- `mark_unit_completed`
unfoldable pub mark_unit_completed :
    ℕ → Scope → ℕ → Option Fields → List CreationTaskCheckpoint → List CreationTaskCheckpoint
mark_unit_completed now s n payload rows = elim (find (is_unit s n) rows) [
  | none ↦ rows ++ new_row now s n payload ∷ []
  | some r ↦ put (is_unit s n) (completed_row now payload r) rows
]

-- `get_completed_units`, as the list of the rows' units.
unfoldable pub get_completed_units : Scope → List CreationTaskCheckpoint → List ℕ
get_completed_units s [] = []
get_completed_units s (r ∷ rs) =
    let rest = get_completed_units s rs in
    if in_scope s r && is_done r then r.unit_no ∷ rest else rest

abbrev pub at_least : Option ℕ → ℕ → Bool
at_least none n = true
at_least (some a) n = leb a n

abbrev pub at_most : Option ℕ → ℕ → Bool
at_most none n = true
at_most (some b) n = leb n b

abbrev pub max_of : ℕ → Option ℕ → Option ℕ
max_of n none = some n
max_of n (some m) = some (max n m)

-- `get_last_completed_unit`
unfoldable pub get_last_completed_unit :
    Scope → Option ℕ → Option ℕ → List CreationTaskCheckpoint → Option ℕ
get_last_completed_unit s a b [] = none
get_last_completed_unit s a b (r ∷ rs) =
    let rest = get_last_completed_unit s a b rs in
    if in_scope s r && is_done r && at_least a r.unit_no && at_most b r.unit_no
    then max_of r.unit_no rest
    else rest

abbrev pub optional_text : Option String → Json
optional_text none = null
optional_text (some s) = text s

abbrev pub optional_num : Option ℕ → Json
optional_num none = null
optional_num (some n) = num (pos n)

-- The cursor that `update_resume_cursor` writes; without a task there is nothing to write.
unfoldable pub update_resume_cursor : String → Option String → ℕ → Option ℕ → Json → Json
update_resume_cursor unit_type partition next last cursor = obj (
    set_key "next" (num (pos next)) (
      set_key "last_completed" (optional_num last) (
        set_key "partition" (optional_text partition)
          (set_key "unit_type" (text unit_type) (as_dict cursor)))))

-- `get_resume_runtime_state`
unfoldable pub get_resume_runtime_state : Json → Fields
get_resume_runtime_state cursor = as_dict (get "runtime_state" (as_dict cursor))

-- The cursor that `update_resume_runtime_state` writes; an empty state removes the old one.
unfoldable pub update_resume_runtime_state : Option Fields → Json → Json
unfolding get_resume_runtime_state
update_resume_runtime_state none cursor = obj (pop "runtime_state" (as_dict cursor))
update_resume_runtime_state (some end) cursor = obj (pop "runtime_state" (as_dict cursor))
update_resume_runtime_state (some d) cursor = obj (
    set_key "runtime_state" (obj (merge_mapping (get_resume_runtime_state cursor) d))
      (as_dict cursor))

abbrev pub elem : ℕ → List ℕ → Bool
elem n xs = any (λ x. x == n) xs

-- The loop over `range(start, end + 1)`: `count` units are left, and `k` is the first of them.
unfoldable pub scan : ℕ → ℕ → ℕ → List ℕ → ℕ
scan zero k last done = last
scan (suc count) k last done =
    let rest = scan count (suc k) last done in if elem k done then rest else k

-- `infer_next_unit`
unfoldable pub infer_next_unit : ℕ → ℕ → List ℕ → ℕ
unfolding scan
infer_next_unit unit_from unit_to done = scan (suc unit_to - unit_from) unit_from (suc unit_to) done

-- `resume_from_last_completed` of cursor_service.py
unfoldable pub resume_from_last_completed : ℕ → ℕ → Option ℕ → ℕ
resume_from_last_completed range_start range_end none = range_start
resume_from_last_completed range_start range_end (some n) =
    if leb range_start range_end then max range_start (suc n) else range_start
