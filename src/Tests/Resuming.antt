-- ===== src/Tests/Resuming.antt =====
-- Runs of the checkpoints.
use ai_jin_shu.Common.{◌<◌, ◌≡◌, refl, none, List, [], ◌∷◌, arith}
use ai_jin_shu.Checkpoints.{
  CreationTaskCheckpoint, Scope, new_row, mark_unit_completed, get_completed_units, infer_next_unit,
}
use ai_jin_shu.Checkpoints.Next.{IsNext, infer_next_unit-IsNext}
use ai_jin_shu.Checkpoints.Marks.{resume-advances}

abbrev chapters : Scope
chapters = record { creation_task_id = 1; unit_type = "chapter"; partition = none }

abbrev rows : List CreationTaskCheckpoint
rows = new_row 5 chapters 1 none ∷ new_row 6 chapters 3 none ∷ []

infer_next_unit-IsNext_example : IsNext 1 6 (infer_next_unit 1 5 (1 ∷ 3 ∷ [])) 1 (1 ∷ 3 ∷ [])
infer_next_unit-IsNext_example = infer_next_unit-IsNext 1 5 1 (1 ∷ 3 ∷ []) (omega arith)

next_is_two : infer_next_unit 1 5 (get_completed_units chapters rows) ≡ 2
unfolding infer_next_unit get_completed_units
next_is_two = refl

resume-advances_example :
    infer_next_unit 1 5 (get_completed_units chapters rows)
    < infer_next_unit 1 5 (
        get_completed_units chapters (
          mark_unit_completed 7 chapters
            (infer_next_unit 1 5 (get_completed_units chapters rows))
            none
            rows))
resume-advances_example =
    resume-advances 7 chapters none 1 5 rows (omega arith) (omega (arith, next_is_two))
