-- ===== src/Storyboards/Lanes.antt =====
-- What a run of a storyboard is created from: the lanes of app/services/storyboard/service.py, and the
-- source version and the versions of the lanes of app/services/storyboard/runtime_v2.py.
use ai_jin_shu.Common.{
  ℕ, suc, max, Bool, false, not, ◌&&◌, ◌||◌, Option, none, some, String, List, [], ◌∷◌, ◌++◌, ltb,
  ◌==◌, str_eq, any, if◌then◌else◌, Result, ok, err,
}
use ai_jin_shu.Versions.{VersionError, ensure_default_version}
use ai_jin_shu.Storyboards.{StoryboardProject, StoryboardVersion, Studio, save_project}

pub data RunError : Type 0 where
  preflight_required run_already_active run_already_terminal no_lanes_resumed : RunError
  unsupported_action project_not_found : RunError
  no_version : VersionError → RunError

abbrev pub both_lanes : List String
both_lanes = "vertical_feed" ∷ "horizontal_cinematic" ∷ []

-- LANE_VALUES
abbrev pub is_lane : String → Bool
is_lane lane = str_eq lane "vertical_feed" || str_eq lane "horizontal_cinematic"

-- The loop of `normalize_lanes`, with what it has so far.
abbrev pub known_lanes : (String → String) → List String → List String → List String
known_lanes strip out [] = out
known_lanes strip out (v ∷ vs) =
    let lane = strip v in
    known_lanes strip
      (if is_lane lane && not (any (str_eq lane) out) then out ++ lane ∷ [] else out) vs

abbrev pub completed_lanes : List String → List String
completed_lanes [] = both_lanes
completed_lanes (lane ∷ []) =
    if str_eq lane "vertical_feed" then lane ∷ "horizontal_cinematic" ∷ [] else lane ∷ []
completed_lanes (lane ∷ more ∷ rest) = lane ∷ more ∷ rest

-- `normalize_lanes` of service.py
unfoldable pub normalize_lanes : (String → String) → Option (List String) → List String
normalize_lanes strip none = both_lanes
normalize_lanes strip (some vs) = completed_lanes (known_lanes strip [] vs)

-- `ensure_project_source_version`
unfoldable pub ensure_project_source_version :
    StoryboardProject → Studio → Result RunError (ℕ × Studio)
ensure_project_source_version p s =
    if ltb 0 p.source_novel_version_id
    then ok (p.source_novel_version_id, s)
    else elim (ensure_default_version p.novel_id s.library) [
      | err e ↦ err (no_version e)
      | ok (v, library) ↦ ok (
        v.id,
        record (save_project (record p { source_novel_version_id = v.id }) s) { library = library },
      )
    ]

-- `_next_version_no`
abbrev pub next_version_no : ℕ → List StoryboardVersion → ℕ
next_version_no project [] = 1
next_version_no project (v ∷ vs) =
    let rest = next_version_no project vs in
    if v.storyboard_project_id == project then max (suc v.version_no) rest else rest

-- `_create_run_lane_version`
abbrev pub lane_version : ℕ → ℕ → String → Studio → StoryboardVersion
lane_version project source lane s = record {
  id = s.next_version;
  storyboard_project_id = project;
  source_novel_version_id = source;
  version_no = next_version_no project s.versions;
  lane = lane;
  status = "generating";
  is_default = false;
  is_final = false;
}

-- `_lane_label` in the message of a lane.
abbrev pub submitted_message : String → String
submitted_message lane = if str_eq lane "vertical_feed" then "竖屏版任务已提交" else "横屏版任务已提交"
