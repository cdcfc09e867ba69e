-- ===== src/Storyboards/Dispatchable.antt =====
-- The tasks that `create_run_and_dispatch` of app/services/storyboard/runtime_v2.py submits pass the
-- checks that the scheduler makes before it publishes them.
use ai_jin_shu.Common.{
  ℕ, suc, ◌<◌, ◌≡◌, refl, ap, ◌∙◌, Bool, true, false, none, some, String, List, [], ◌∷◌, ◌++◌, map,
  arith, ◌==◌, All, Option-cases, inl, inr, ok,
}
use ai_jin_shu.Common.Int.{ℤ, pos}
use ai_jin_shu.Common.Table.{find, find-append_one, All-append_one}
use ai_jin_shu.Json.{Numerals}
use ai_jin_shu.Tasks.{CreationTask}
use ai_jin_shu.Scheduler.Store.{Project, BoardRow}
use ai_jin_shu.Scheduler.Payload.{project_with, row_in, lane_in, prepare_lane}
use ai_jin_shu.Storyboards.{StoryboardRun, StoryboardVersion, Studio}
use ai_jin_shu.Storyboards.Runs.{RunRequest, add_lane, add_lanes}
use ai_jin_shu.Storyboards.Lanes.{lane_version}
use ai_jin_shu.Storyboards.Runs.{new_lane}
use ai_jin_shu.Storyboards.Placed.{
  lane_view, version_view, boards_of, scheduler_view, IsPlaced, lane_task, placed-prepares,
}

map-append_one {ℓ κ} :
    {A : Type ℓ} {B : Type κ} (f : A → B) (a : A) (xs : List A)
    → map f (xs ++ a ∷ []) ≡ map f xs ++ f a ∷ []
map-append_one f a [] = refl
map-append_one f a (x ∷ xs) = ap (λ ys. f x ∷ ys) (map-append_one f a xs)

-- A row that was found is found after another is appended, and an appended row is found if no row
-- before it was.
module _ {A : Type 0} (f : A → BoardRow) (p : BoardRow → Bool) (a : A) (xs : List A) where
  find-kept : (b : BoardRow) → find p (map f xs) ≡ some b → find p (map f (xs ++ a ∷ [])) ≡ some b
  find-kept b h =
      ap (find p) (map-append_one f a xs) ∙ find-append_one p (f a) (map f xs) ∙ rw h refl

  find-new : find p (map f xs) ≡ none → p (f a) ≡ true → find p (map f (xs ++ a ∷ [])) ≡ some (f a)
  find-new h k =
      ap (find p) (map-append_one f a xs) ∙ find-append_one p (f a) (map f xs) ∙ rw h (rw k refl)

  pub find-some : p (f a) ≡ true → (b : BoardRow) × (find p (map f (xs ++ a ∷ [])) ≡ some b)
  find-some k = elim (Option-cases (find p (map f xs))) [
    | inl e ↦ (f a, find-new e k)
    | inr (b, e) ↦ (b, find-kept b e)
  ]

-- No version has an id that the sequence has not given yet.
abbrev pub VersionsBelow : ℕ → List StoryboardVersion → Type 0
VersionsBelow n vs = All (λ v. v.id < n) vs

below-fresh :
    (py : Numerals) (n : ℕ) (project : ℤ) (vs : List StoryboardVersion)
    → VersionsBelow n vs
    → find (row_in py (pos n) project) (map version_view vs) ≡ none
below-fresh py n project [] h = refl
below-fresh py n project (v ∷ vs) h =
    let other : (v.id == n) ≡ false = ground (arith, h.0) in
    rw other (below-fresh py n project vs h.1)

below-suc : (n : ℕ) (vs : List StoryboardVersion) → VersionsBelow n vs → VersionsBelow (suc n) vs
below-suc n [] h = tt
below-suc n (v ∷ vs) h = (omega (arith, h.0), below-suc n vs h.1)

-- The rows that all lanes of a run share are there.
pub record IsReady (py : Numerals) (r : StoryboardRun) (source : ℕ) (s : Studio) : Type 0 where
  pub project : Project
  pub project_found :
      find (project_with py (pos r.storyboard_project_id)) (boards_of s).projects ≡ some project
  pub run : BoardRow
  pub run_found :
      find (row_in py (pos r.id) (pos r.storyboard_project_id)) (boards_of s).runs ≡ some run
  pub novel : Project
  pub novel_found : find (project_with py (pos source)) (boards_of s).novel_versions ≡ some novel
  pub same_novel : novel.novel_id ≡ project.novel_id
  pub below : VersionsBelow s.next_version s.versions

module _ (py : Numerals) (q : RunRequest) (r : StoryboardRun) (source : ℕ) where
  add_lane-IsReady :
      (lane : String) (s : Studio)
      → IsReady py r source s
      → IsReady py r source (add_lane q r source lane s)
  unfolding add_lane
  add_lane-IsReady lane s h = record {
    project = h.project;
    project_found = h.project_found;
    run = h.run;
    run_found = h.run_found;
    novel = h.novel;
    novel_found = h.novel_found;
    same_novel = h.same_novel;
    below =
        All-append_one (λ v. v.id < suc s.next_version)
          (lane_version r.storyboard_project_id source lane s) s.versions
          (below-suc s.next_version s.versions h.below) (omega arith);
  }

  add_lane-IsPlaced :
      (lane : String) (s : Studio)
      → IsReady py r source s
      → IsPlaced py r s.next_lane lane s.next_version source (add_lane q r source lane s)
  unfolding add_lane
  add_lane-IsPlaced lane s h =
      let l = new_lane q r s.next_lane lane s.next_version in
      let v = lane_version r.storyboard_project_id source lane s in
      let row =
        find-some lane_view (lane_in py (pos s.next_lane) (pos r.id) (pos r.storyboard_project_id))
          l s.lanes (ground arith) in
      record {
        project = h.project;
        project_found = h.project_found;
        run = h.run;
        run_found = h.run_found;
        row = row.0;
        row_found = row.1;
        board = version_view v;
        board_found =
            find-new version_view (row_in py (pos s.next_version) (pos r.storyboard_project_id)) v
              s.versions
              (below-fresh py s.next_version (pos r.storyboard_project_id) s.versions h.below)
              (ground arith);
        board_lane = refl;
        novel = h.novel;
        novel_found = h.novel_found;
        same_novel = h.same_novel;
      }

  -- Another lane takes nothing away.
  add_lane-keeps_IsPlaced :
      (i : ℕ) (placed : String) (version : ℕ) (lane : String) (s : Studio)
      → IsPlaced py r i placed version source s
      → IsPlaced py r i placed version source (add_lane q r source lane s)
  unfolding add_lane
  add_lane-keeps_IsPlaced i placed version lane s h = record {
    project = h.project;
    project_found = h.project_found;
    run = h.run;
    run_found = h.run_found;
    row = h.row;
    row_found =
        find-kept lane_view (lane_in py (pos i) (pos r.id) (pos r.storyboard_project_id))
          (new_lane q r s.next_lane lane s.next_version) s.lanes h.row h.row_found;
    board = h.board;
    board_found =
        find-kept version_view (row_in py (pos version) (pos r.storyboard_project_id))
          (lane_version r.storyboard_project_id source lane s) s.versions h.board h.board_found;
    board_lane = h.board_lane;
    novel = h.novel;
    novel_found = h.novel_found;
    same_novel = h.same_novel;
  }

  add_lanes-keep_IsPlaced :
      (i : ℕ) (placed : String) (version : ℕ) (lanes : List String) (s : Studio)
      → IsPlaced py r i placed version source s
      → IsPlaced py r i placed version source (add_lanes q r source lanes s)
  unfolding add_lanes
  add_lanes-keep_IsPlaced i placed version [] s h = h
  add_lanes-keep_IsPlaced i placed version (lane ∷ lanes) s h =
      add_lanes-keep_IsPlaced i placed version lanes (add_lane q r source lane s)
        (add_lane-keeps_IsPlaced i placed version lane s h)

  -- The tasks of the lanes, in their order.
  abbrev pub lane_tasks : List String → Studio → List CreationTask
  lane_tasks [] s = []
  lane_tasks (lane ∷ lanes) s =
      lane_task py q r source s.next_lane lane s.next_version s.scheduler.next_id
      ∷ lane_tasks lanes (add_lane q r source lane s)

  abbrev pub IsDispatchable : Studio → CreationTask → Type 0
  IsDispatchable s t = prepare_lane py t (scheduler_view s) ≡ ok tt

  pub add_lanes-IsDispatchable :
      (lanes : List String) (s : Studio)
      → IsReady py r source s
      → All (IsDispatchable (add_lanes q r source lanes s)) (lane_tasks lanes s)
  unfolding add_lanes
  add_lanes-IsDispatchable [] s h = tt
  add_lanes-IsDispatchable (lane ∷ lanes) s h =
      let t = add_lane q r source lane s in
      (
        placed-prepares py q r source s.next_lane lane s.next_version s.scheduler.next_id
            (add_lanes q r source lanes t)
            (add_lanes-keep_IsPlaced s.next_lane lane s.next_version lanes t
              (add_lane-IsPlaced lane s h)),
        add_lanes-IsDispatchable lanes t (add_lane-IsReady lane s h),
      )
