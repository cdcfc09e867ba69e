-- ===== src/Storyboards/Placed.antt =====
-- When the task of a lane of app/services/storyboard/runtime_v2.py passes the checks that the
-- scheduler makes before it publishes it.
use ai_jin_shu.Common.{ℕ, ◌≡◌, refl, sym, subst, true, some, String, map, arith, eq_iff, ok}
use ai_jin_shu.Common.Int.{ℤ, pos}
use ai_jin_shu.Common.Table.{find}
use ai_jin_shu.Json.{Numerals, get}
use ai_jin_shu.Tasks.{CreationTask}
use ai_jin_shu.Versions.{NovelVersion}
use ai_jin_shu.Scheduler.Store.{Db, Boards, Project, BoardRow}
use ai_jin_shu.Scheduler.Operations.{new_task}
use ai_jin_shu.Scheduler.Payload.{
  eq_ℤ, project_with, row_in, lane_in, check_source, prepare_lane, require_keys,
}
use ai_jin_shu.Storyboards.{
  StoryboardProject, StoryboardRun, StoryboardRunLane, StoryboardVersion, Studio,
}
use ai_jin_shu.Storyboards.Runs.{RunRequest, lane_submission}

-- The columns of the storyboard tables that the scheduler reads.
abbrev pub project_view : StoryboardProject → Project
project_view p = record { id = pos p.id; novel_id = pos p.novel_id }

abbrev pub run_view : StoryboardRun → BoardRow
run_view r = record {
  id = pos r.id;
  project_id = pos r.storyboard_project_id;
  run_id = pos r.id;
  lane = "";
}

abbrev pub lane_view : StoryboardRunLane → BoardRow
lane_view l = record {
  id = pos l.id;
  project_id = pos l.storyboard_project_id;
  run_id = pos l.storyboard_run_id;
  lane = l.lane;
}

abbrev pub version_view : StoryboardVersion → BoardRow
version_view v = record {
  id = pos v.id;
  project_id = pos v.storyboard_project_id;
  run_id = pos 0;
  lane = v.lane;
}

abbrev pub novel_version_view : NovelVersion → Project
novel_version_view v = record { id = pos v.id; novel_id = pos v.novel_id }

abbrev pub boards_of : Studio → Boards
boards_of s = record s.scheduler.boards {
  projects = map project_view s.projects;
  runs = map run_view s.runs;
  run_lanes = map lane_view s.lanes;
  versions = map version_view s.versions;
  novel_versions = map novel_version_view s.library.versions;
}

-- What the scheduler reads of the tables.
abbrev pub scheduler_view : Studio → Db
scheduler_view s = record s.scheduler { boards = boards_of s }

-- The rows that the task of a lane names are there, and fit together.
pub record IsPlaced (py : Numerals) (r : StoryboardRun) (i : ℕ) (lane : String) (version source : ℕ)
    (s : Studio) : Type 0 where
  pub project : Project
  pub project_found :
      find (project_with py (pos r.storyboard_project_id)) (boards_of s).projects ≡ some project
  pub run : BoardRow
  pub run_found :
      find (row_in py (pos r.id) (pos r.storyboard_project_id)) (boards_of s).runs ≡ some run
  pub row : BoardRow
  pub row_found :
      find (lane_in py (pos i) (pos r.id) (pos r.storyboard_project_id)) (boards_of s).run_lanes
      ≡ some row
  pub board : BoardRow
  pub board_found :
      find (row_in py (pos version) (pos r.storyboard_project_id)) (boards_of s).versions
      ≡ some board
  pub board_lane : board.lane ≡ lane
  pub novel : Project
  pub novel_found : find (project_with py (pos source)) (boards_of s).novel_versions ≡ some novel
  pub same_novel : novel.novel_id ≡ project.novel_id

eq_ℤ-self : (z : ℤ) → eq_ℤ z z ≡ true
eq_ℤ-self z = ground arith

eq_ℤ_of_eq : (a b : ℤ) → a ≡ b → eq_ℤ a b ≡ true
eq_ℤ_of_eq a b e = subst (λ c. eq_ℤ a c ≡ true) e (eq_ℤ-self a)

module _ (py : Numerals) (q : RunRequest) (r : StoryboardRun) (source : ℕ) where
  -- The task of a lane, with the id that the scheduler gives it.
  abbrev pub lane_task : ℕ → String → ℕ → ℕ → CreationTask
  lane_task i lane version task = new_task q.now task (lane_submission q r i lane version source)

  pub placed-prepares :
      (i : ℕ) (lane : String) (version task : ℕ) (s : Studio)
      → IsPlaced py r i lane version source s
      → prepare_lane py (lane_task i lane version task) (scheduler_view s) ≡ ok tt
  unfolding prepare_lane require_keys get new_task
  placed-prepares i lane version task s h = rw h.project_found (
      rw h.run_found (
        rw h.row_found (
          rw h.board_found (
            let same = (eq_iff lane h.board.lane).1 (sym h.board_lane) in
            let novel = eq_ℤ_of_eq h.novel.novel_id h.project.novel_id h.same_novel in
            rw same (rw (h.novel_found, check_source) (rw novel refl))))))
