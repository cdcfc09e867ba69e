-- ===== src/Checkpoints/Cursor.antt =====
-- The cursor that app/services/task_runtime/checkpoint_repo.py writes and `resume_task` of
-- app/services/scheduler/scheduler_service.py reads.
use ai_jin_shu.Common.{ℕ, ◌≡◌, Option, some, String, ok, refl}
use ai_jin_shu.Common.Int.{pos}
use ai_jin_shu.Json.{Json, num, text, set_key, as_dict, Numerals}
use ai_jin_shu.Json.Merge.{get-set_key}
use ai_jin_shu.Scheduler.Rows.{next_unit}
use ai_jin_shu.Checkpoints.{
  optional_text, optional_num, update_resume_cursor, get_resume_runtime_state,
}

-- A task resumes at the unit that the last update of its cursor names, whatever the cursor held
-- before, and the update leaves the runtime state of the cursor as it was.
pub update_resume_cursor-next :
    (py : Numerals) (unit_type : String) (partition : Option String) (next : ℕ) (last : Option ℕ)
    (cursor : Json)
    → let after = update_resume_cursor unit_type partition next last cursor in
      (next_unit py after ≡ ok (some (pos next)))
      × (get_resume_runtime_state after ≡ get_resume_runtime_state cursor)
unfolding update_resume_cursor get_resume_runtime_state
update_resume_cursor-next py unit_type partition next last cursor =
    let d = as_dict cursor in
    let d₁ = set_key "unit_type" (text unit_type) d in
    let d₂ = set_key "partition" (optional_text partition) d₁ in
    let d₃ = set_key "last_completed" (optional_num last) d₂ in
    (
      rw (get-set_key "next" "next" (num (pos next)) d₃) refl,
      rw
          (
            get-set_key "next" "runtime_state" (num (pos next)) d₃,
            get-set_key "last_completed" "runtime_state" (optional_num last) d₂,
            get-set_key "partition" "runtime_state" (optional_text partition) d₁,
            get-set_key "unit_type" "runtime_state" (text unit_type) d,
          )
          refl,
    )
