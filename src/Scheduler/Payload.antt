-- ===== src/Scheduler/Payload.antt =====
-- `_prepare_worker_task_dispatch` of app/services/scheduler/scheduler_service.py: the checks of a
-- task's payload before it is published, and the rows that it writes for the worker. The final
-- flush is the database's.
use ai_jin_shu.Common.{
  Bool, true, false, ◌&&◌, Option, none, some, String, List, [], ◌∷◌, ◌++◌, str_eq, all, any,
  if◌then◌else◌, Result, ok, err, ◌>>=◌, ◌>>◌, guard, ◌==◌,
}
use ai_jin_shu.Common.Int.{ℤ, pos, pos_part, neg_part}
use ai_jin_shu.Common.Table.{find, put}
use ai_jin_shu.Json.{
  Json, text, arr, Items, nil, cons, Fields, get, is_null, truthy, or_value, Numerals, to_int,
}
use ai_jin_shu.Tasks.{
  Error, missing_payload_key, bad_number, context_invalid, unknown_task_type, CreationTask,
}
use ai_jin_shu.Scheduler.Store.{Db, GenerationTask, RewriteRequest, Project, BoardRow}

abbrev pub eq_ℤ : ℤ → ℤ → Bool
eq_ℤ a b = pos_part a == pos_part b && neg_part a == neg_part b

-- The loop over the required keys: the first one that is missing or null is reported.
unfoldable pub require_keys : String → List String → Fields → Result Error (Unit {0})
require_keys kind [] payload = ok tt
require_keys kind (k ∷ ks) payload =
    let rest = require_keys kind ks payload in
    if is_null (get k payload) then err (missing_payload_key kind k) else rest

abbrev pub generation_keys : List String
generation_keys = "novel_id" ∷ "novel_version_id" ∷ "num_chapters" ∷ "start_chapter" ∷ []

abbrev pub rewrite_keys : List String
rewrite_keys =
    "novel_id" ∷ "rewrite_request_id" ∷ "base_version_id" ∷ "target_version_id" ∷ "rewrite_from"
    ∷ "rewrite_to" ∷ []

abbrev pub lane_keys : List String
lane_keys =
    "project_id" ∷ "run_id" ∷ "run_lane_id" ∷ "lane" ∷ "version_id" ∷ "novel_version_id" ∷ []

abbrev pub storyboard_keys : List String
storyboard_keys = "project_id" ∷ "task_db_id" ∷ "novel_version_id" ∷ []

-- What `if not row: raise ValueError(...)` makes of a lookup.
abbrev pub present {ℓ} : {A : Type ℓ} → String → Option A → Result Error A
present message none = err (context_invalid message)
present message (some a) = ok a

module _ (py : Numerals) where
  -- `int(v)`
  abbrev pub int : Json → Result Error ℤ
  int v = elim (to_int py v) [ none ↦ err bad_number | some z ↦ ok z ]

  -- `str(v)`; the text of anything but a text is not compared with a lane's name.
  abbrev pub lane_text : Json → Option String
  lane_text (text s) = some s
  lane_text v = none

  -- `[int(x) for x in (payload.get("version_ids") or [])]`. The API writes a list; whatever else is
  -- there is refused here, also the texts and dicts that Python would iterate over.
  abbrev pub int_items : Items → Result Error (List ℤ)
  int_items nil = ok []
  int_items (cons v vs) = elim (int v) [
    | err e ↦ err e
    | ok z ↦ elim (int_items vs) [ err e ↦ err e | ok zs ↦ ok (z ∷ zs) ]
  ]

  abbrev pub int_list : Json → Result Error (List ℤ)
  int_list (arr vs) = int_items vs
  int_list v = if truthy v then err bad_number else ok []

  -- The legacy row of a generation task.
  unfoldable pub prepare_generation : CreationTask → String → Result Error GenerationTask
  prepare_generation t w = do
    require_keys "generation" generation_keys t.payload_json
    total ← int (
        or_value (get "book_target_total_chapters" t.payload_json) (
          or_value (get "original_total_chapters" t.payload_json)
            (get "num_chapters" t.payload_json)))
    novel_id ← int (get "novel_id" t.payload_json)
    chapters ← int (get "num_chapters" t.payload_json)
    start ← int (get "start_chapter" t.payload_json)
    ok (record {
      task_id = w;
      novel_id = novel_id;
      status = "submitted";
      run_state = "submitted";
      current_phase = "queued";
      total_chapters = total;
      num_chapters = chapters;
      start_chapter = start;
      message = "任务已入队";
      error = none;
      error_code = none;
      error_category = none;
    })

  -- The id of the rewrite request of a task.
  unfoldable pub prepare_rewrite : CreationTask → Result Error ℤ
  prepare_rewrite t = do
    require_keys "rewrite" rewrite_keys t.payload_json
    int (get "rewrite_request_id" t.payload_json)

  abbrev pub of_request : ℤ → RewriteRequest → Bool
  of_request i r = eq_ℤ (pos r.id) i

  -- A rewrite request that is not there is passed over.
  abbrev pub mark_request : ℤ → CreationTask → List RewriteRequest → List RewriteRequest
  mark_request i t rows = elim (find (of_request i) rows) [
    | none ↦ rows
    | some r ↦
        put (of_request i)
          (record r { task_id = some t.public_id; status = "queued"; message = "重写任务已入队" }) rows
  ]

  abbrev pub project_with : ℤ → Project → Bool
  project_with i p = eq_ℤ p.id i

  abbrev pub row_in : ℤ → ℤ → BoardRow → Bool
  row_in i project r = eq_ℤ r.id i && eq_ℤ r.project_id project

  abbrev pub lane_in : ℤ → ℤ → ℤ → BoardRow → Bool
  lane_in i run project r = row_in i project r && eq_ℤ r.run_id run

  abbrev pub same_lane : Option String → String → Bool
  same_lane none lane = false
  same_lane (some s) lane = str_eq s lane

  -- The source version must belong to the project's novel.
  abbrev pub check_source : ℤ → Project → Db → Result Error (Unit {0})
  check_source version project db = do
    v ←
        present "storyboard novel_version context invalid"
          (find (project_with version) db.boards.novel_versions)
    guard (eq_ℤ v.novel_id project.novel_id)
        (context_invalid "storyboard novel_version context invalid")

  -- The checks of a storyboard lane; nothing is written.
  unfoldable pub prepare_lane : CreationTask → Db → Result Error (Unit {0})
  prepare_lane t db = do
    require_keys "storyboard_lane" lane_keys t.payload_json
    project_id ← int (get "project_id" t.payload_json)
    run_id ← int (get "run_id" t.payload_json)
    run_lane_id ← int (get "run_lane_id" t.payload_json)
    version_id ← int (get "version_id" t.payload_json)
    novel_version_id ← int (get "novel_version_id" t.payload_json)
    project ←
        present "storyboard project not found" (find (project_with project_id) db.boards.projects)
    run ←
        present "storyboard run context not found" (find (row_in run_id project_id) db.boards.runs)
    lane ←
        present "storyboard run lane context not found"
          (find (lane_in run_lane_id run_id project_id) db.boards.run_lanes)
    version ←
        present "storyboard version context not found"
          (find (row_in version_id project_id) db.boards.versions)
    guard (same_lane (lane_text (get "lane" t.payload_json)) version.lane)
        (context_invalid "storyboard run lane/version mismatch")
    check_source novel_version_id project db

  -- Every requested version is one of the project's.
  abbrev pub all_in : ℤ → Db → List ℤ → Bool
  all_in project db ids = all (λ i. any (row_in i project) db.boards.versions) ids

  unfoldable pub prepare_storyboard : CreationTask → Db → Result Error (Unit {0})
  prepare_storyboard t db = do
    require_keys "storyboard" storyboard_keys t.payload_json
    project_id ← int (get "project_id" t.payload_json)
    task_db_id ← int (get "task_db_id" t.payload_json)
    novel_version_id ← int (get "novel_version_id" t.payload_json)
    version_ids ← int_list (get "version_ids" t.payload_json)
    guard (elim version_ids [ [] ↦ false | _ ↦ true ])
        (missing_payload_key "storyboard" "version_ids")
    project ←
        present "storyboard project not found" (find (project_with project_id) db.boards.projects)
    row ←
        present "storyboard task context not found"
          (find (λ r. eq_ℤ r.id task_db_id) db.boards.tasks)
    guard (eq_ℤ row.project_id project_id) (context_invalid "storyboard task context not found")
    guard (all_in project_id db version_ids) (context_invalid "storyboard versions context invalid")
    check_source novel_version_id project db

  -- `_prepare_worker_task_dispatch` for the worker `w`.
  unfoldable pub prepare_worker_task_dispatch : CreationTask → String → Db → Result Error Db
  unfolding prepare_generation prepare_rewrite prepare_lane prepare_storyboard
  prepare_worker_task_dispatch t w db =
      if str_eq t.task_type "generation"
      then (prepare_generation t w >>= λ g.
          ok (record db { generation_tasks = db.generation_tasks ++ g ∷ [] }))
      else if str_eq t.task_type "rewrite"
      then (prepare_rewrite t >>= λ i. ok (record db { rewrites = mark_request i t db.rewrites }))
      else if str_eq t.task_type "storyboard_lane"
      then (prepare_lane t db >>= λ _. ok db)
      else if str_eq t.task_type "storyboard"
      then (prepare_storyboard t db >>= λ _. ok db)
      else err (unknown_task_type t.task_type)
