-- ===== src/Storyboards.antt =====
-- app/services/storyboard/runtime_v2.py: the runs of a storyboard project and their lanes, with the rows
-- of app/models/storyboard.py. `progress` is in millionths of a percent. The payloads of events and
-- audit rows, and the publication of events to Redis, are left out.
pub mod Status
pub mod Lanes
pub mod Runs
pub mod Actions
pub mod Waiting
pub mod Created
pub mod Retry
pub mod Revival
pub mod Cancellation
pub mod Placed
pub mod Dispatchable
pub mod Submitted
use ai_jin_shu.Common.{
  first_some, ℕ, zero, suc, ◌+◌, ◌*◌, ◌/◌, max, min, Bool, true, false, not, ◌&&◌, ◌||◌, Option,
  none, some, String, List, [], ◌∷◌, ◌++◌, map, ltb, ◌==◌, str_eq, length, select, any, all,
  or_else, is_some, if◌then◌else◌,
}
use ai_jin_shu.Common.Table.{find, put}
use ai_jin_shu.Json.{Json}
use ai_jin_shu.Versions.{Library}
use ai_jin_shu.Scheduler.Store.{Db}

-- The values of `status` and `run_state` of runs and lanes.
pub data RunState : Type 0 where
  queued submitted dispatching running retrying paused completed failed cancelled : RunState

pub record StoryboardProject : Type 0 where
  pub id : ℕ
  pub novel_id : ℕ
  pub source_novel_version_id : ℕ
  pub status : String
  pub output_lanes : Option (List String)
  pub active_lane : String

pub record StoryboardRun : Type 0 where
  pub id : ℕ
  pub public_id : String
  pub storyboard_project_id : ℕ
  pub requested_by_user_uuid : String
  pub status : RunState
  pub run_state : RunState
  pub current_phase : String
  pub progress : ℕ
  pub message : String
  pub idempotency_key : Option String
  pub trace_id : Option String
  pub started_at : ℕ
  pub finished_at : Option ℕ
  pub updated_at : ℕ

pub record StoryboardRunLane : Type 0 where
  pub id : ℕ
  pub storyboard_run_id : ℕ
  pub storyboard_project_id : ℕ
  pub lane : String
  pub storyboard_version_id : ℕ
  pub creation_task_public_id : Option String
  pub status : RunState
  pub run_state : RunState
  pub current_phase : String
  pub progress : ℕ
  pub message : String
  pub error : Option String
  pub error_code : Option String
  pub error_category : Option String
  pub gate_report_json : Option Json
  pub started_at : ℕ
  pub finished_at : Option ℕ
  pub updated_at : ℕ

pub record StoryboardVersion : Type 0 where
  pub id : ℕ
  pub storyboard_project_id : ℕ
  pub source_novel_version_id : ℕ
  pub version_no : ℕ
  pub lane : String
  pub status : String
  pub is_default : Bool
  pub is_final : Bool

-- A row of the event outbox or of the audit log, with the project, the run and the topic or action.
pub data LogRow : Type 0 where
  event : ℕ → ℕ → String → LogRow
  audit : ℕ → ℕ → String → String → LogRow

-- The tables that the runs use; the scheduler's are a part of it.
pub record Studio : Type 0 where
  pub scheduler : Db
  pub library : Library
  pub projects : List StoryboardProject
  pub runs : List StoryboardRun
  pub lanes : List StoryboardRunLane
  pub versions : List StoryboardVersion
  pub next_run : ℕ
  pub next_lane : ℕ
  pub next_version : ℕ
  pub log : List LogRow

-- ACTIVE_LANE_STATES
abbrev pub is_active : RunState → Bool
is_active completed = false
is_active failed = false
is_active cancelled = false
is_active s = true

-- TERMINAL_LANE_STATES
abbrev pub is_over : RunState → Bool
is_over s = not (is_active s)

abbrev pub is_completed : RunState → Bool
is_completed completed = true
is_completed s = false

abbrev pub is_failed : RunState → Bool
is_failed failed = true
is_failed s = false

abbrev pub is_cancelled : RunState → Bool
is_cancelled cancelled = true
is_cancelled s = false

abbrev pub is_paused : RunState → Bool
is_paused paused = true
is_paused s = false

-- `get_project_or_404`
abbrev pub get_project : ℕ → Studio → Option StoryboardProject
get_project i s = find (λ p. p.id == i) s.projects

abbrev pub get_run : ℕ → Studio → Option StoryboardRun
get_run i s = find (λ r. r.id == i) s.runs

-- `list_run_lanes`: the rows are in the order of their ids.
abbrev pub list_run_lanes : ℕ → Studio → List StoryboardRunLane
list_run_lanes i s = select (λ l. l.storyboard_run_id == i) s.lanes

abbrev pub save_project : StoryboardProject → Studio → Studio
save_project p s = record s { projects = put (λ q. q.id == p.id) p s.projects }

abbrev pub save_run : StoryboardRun → Studio → Studio
save_run r s = record s { runs = put (λ q. q.id == r.id) r s.runs }

abbrev pub logged : List LogRow → Studio → Studio
logged rows s = record s { log = s.log ++ rows }

-- The arguments of `update_run_lane_state`.
pub record LaneChange : Type 0 where
  pub status : Option RunState
  pub run_state : Option RunState
  pub current_phase : Option String
  pub progress : Option ℕ
  pub message : Option String
  pub error : Option String
  pub error_code : Option String
  pub error_category : Option String
  pub gate_report_json : Option Json

-- `update_run_lane_state` on its row.
abbrev pub changed_lane : ℕ → LaneChange → StoryboardRunLane → StoryboardRunLane
changed_lane now c l =
    let state = or_else c.status l.status in
    record l {
      status = state;
      run_state = or_else c.run_state l.run_state;
      current_phase = or_else c.current_phase l.current_phase;
      progress = elim c.progress [ none ↦ l.progress | some p ↦ min 100000000 p ];
      message = or_else c.message l.message;
      error = first_some c.error l.error;
      error_code = first_some c.error_code l.error_code;
      error_category = first_some c.error_category l.error_category;
      gate_report_json = first_some c.gate_report_json l.gate_report_json;
      finished_at =
          if is_over state && not (is_some l.finished_at) then some now else l.finished_at;
      updated_at = now;
    }

-- `update_run_lane_state`
unfoldable pub update_run_lane_state : ℕ → ℕ → LaneChange → Studio → Studio
update_run_lane_state now i c s = elim (find (λ l. l.id == i) s.lanes) [
  | none ↦ s
  | some l ↦ record s { lanes = put (λ k. k.id == i) (changed_lane now c l) s.lanes }
]
