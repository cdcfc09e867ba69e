-- ===== src/Breaker.antt =====
-- app/core/llm_circuit_breaker.py: one breaker for each endpoint of a stage. `_STATES` is the list
-- of its entries; the lock makes each operation one step. A time is in seconds.
pub mod Trips
pub mod Selection
pub mod Probe
pub mod Stages
use ai_jin_shu.Common.{
  ℕ, suc, ◌+◌, ◌-◌, Bool, true, false, not, ◌&&◌, ◌||◌, Option, none, some, String, List, [], ◌∷◌,
  ◌++◌, str_eq, leb, any, if◌then◌else◌,
}
use ai_jin_shu.Common.Table.{find, put}

pub data EndpointName : Type 0 where
  primary fallback_a fallback_b : EndpointName

pub data BreakerState : Type 0 where
  closed open_ half_open : BreakerState

-- _BreakerRecord
pub record BreakerRecord : Type 0 where
  pub state : BreakerState
  pub consecutive_failures : ℕ
  pub opened_at : ℕ
  pub half_open_probe_pending : Bool

abbrev pub fresh_record : BreakerRecord
fresh_record = record {
  state = closed;
  consecutive_failures = 0;
  opened_at = 0;
  half_open_probe_pending = false;
}

-- `half_open_probe_ratio` is stored and never read: it has no field here.
pub record CircuitConfig : Type 0 where
  pub consecutive_failures_to_open : ℕ
  pub cooldown_seconds : ℕ
  pub fallback_consecutive_failures_to_open : ℕ

abbrev pub default_config : CircuitConfig
default_config = record {
  consecutive_failures_to_open = 3;
  cooldown_seconds = 3600;
  fallback_consecutive_failures_to_open = 5;
}

-- _StageState
pub record StageState : Type 0 where
  pub stage : String
  pub config : CircuitConfig
  pub primary : BreakerRecord
  pub fallback_a : BreakerRecord
  pub fallback_b : BreakerRecord

abbrev pub fresh_stage : String → StageState
fresh_stage s = record {
  stage = s;
  config = default_config;
  primary = fresh_record;
  fallback_a = fresh_record;
  fallback_b = fresh_record;
}

abbrev pub of_stage : String → StageState → Bool
of_stage s r = str_eq r.stage s

-- `_STATES.setdefault(stage, _StageState())`
unfoldable pub set_default : String → List StageState → StageState × List StageState
set_default s states = elim (find (of_stage s) states) [
  | none ↦ (fresh_stage s, states ++ fresh_stage s ∷ [])
  | some st ↦ (st, states)
]

-- `configure_stage`
unfoldable pub configure_stage : String → CircuitConfig → List StageState → List StageState
unfolding set_default
configure_stage s c states =
    let (st, rows) = set_default s states in put (of_stage s) (record st { config = c }) rows

-- `_get_record`, and the write through the reference that it returns.
abbrev pub get_record : StageState → EndpointName → BreakerRecord
get_record st primary = st.primary
get_record st fallback_a = st.fallback_a
get_record st fallback_b = st.fallback_b

abbrev pub set_record : StageState → EndpointName → BreakerRecord → StageState
set_record st primary r = record st { primary = r }
set_record st fallback_a r = record st { fallback_a = r }
set_record st fallback_b r = record st { fallback_b = r }

abbrev pub threshold : CircuitConfig → EndpointName → ℕ
threshold c primary = c.consecutive_failures_to_open
threshold c e = c.fallback_consecutive_failures_to_open

-- A failed call, by the state that it finds.
abbrev pub failed_in : BreakerState → ℕ → ℕ → BreakerRecord → BreakerRecord
failed_in closed limit now r =
    if leb limit r.consecutive_failures then record r { state = open_; opened_at = now } else r
failed_in half_open limit now r = record r {
  state = open_;
  opened_at = now;
  half_open_probe_pending = false;
}
failed_in open_ limit now r = r

-- `record_call` on one breaker.
unfoldable pub recorded : ℕ → ℕ → Bool → BreakerRecord → BreakerRecord
recorded limit now true r = fresh_record
recorded limit now false r =
    failed_in r.state limit now (record r { consecutive_failures = suc r.consecutive_failures })

-- `record_call` on the entry of its stage.
unfoldable pub record_on : ℕ → EndpointName → Bool → StageState → StageState
unfolding recorded
record_on now e success st =
    set_record st e (recorded (threshold st.config e) now success (get_record st e))

unfoldable pub record_call :
    ℕ → String → EndpointName → Bool → List StageState → BreakerState × List StageState
unfolding record_on set_default
record_call now s e success states =
    let (st, rows) = set_default s states in
    let st' = record_on now e success st in ((get_record st' e).state, put (of_stage s) st' rows)

abbrev pub is_open : BreakerState → Bool
is_open open_ = true
is_open s = false

abbrev pub same : EndpointName → EndpointName → Bool
same primary primary = true
same fallback_a fallback_a = true
same fallback_b fallback_b = true
same a b = false

abbrev pub excludes : List EndpointName → EndpointName → Bool
excludes xs e = any (same e) xs

-- `_pick_first_closed_fallback`
unfoldable pub pick_first_closed_fallback : StageState → List EndpointName → EndpointName
pick_first_closed_fallback st xs =
    if not (excludes xs fallback_a) && not (is_open st.fallback_a.state)
    then fallback_a
    else if not (excludes xs fallback_b) && not (is_open st.fallback_b.state)
    then fallback_b
    else if not (excludes xs fallback_a)
    then fallback_a
    else if not (excludes xs fallback_b)
    then fallback_b
    else primary

-- The start of `select_endpoint`: an open primary whose cooldown is over becomes half open.
unfoldable pub cooled : ℕ → StageState → StageState
cooled now st =
    if is_open st.primary.state && leb (st.primary.opened_at + st.config.cooldown_seconds) now
    then record st {
      primary = record (st.primary) { state = half_open; half_open_probe_pending = true };
    }
    else st

-- The rest of `select_endpoint`, by the state of the primary.
abbrev pub choose :
    BreakerState
    → Bool
    → List EndpointName
    → StageState
    → (EndpointName × BreakerState) × StageState
choose s true xs st = ((pick_first_closed_fallback st xs, s), st)
choose closed false xs st = ((primary, closed), st)
choose half_open false xs st =
    if st.primary.half_open_probe_pending
    then (
      (primary, half_open),
      record st { primary = record (st.primary) { half_open_probe_pending = false } },
    )
    else ((pick_first_closed_fallback st xs, open_), st)
choose open_ false xs st = ((pick_first_closed_fallback st xs, open_), st)

unfoldable pub select_on :
    ℕ → List EndpointName → StageState → (EndpointName × BreakerState) × StageState
unfolding cooled pick_first_closed_fallback
select_on now xs st =
    let st' = cooled now st in choose st'.primary.state (excludes xs primary) xs st'

unfoldable pub select_endpoint :
    ℕ
    → String
    → List EndpointName
    → List StageState
    → (EndpointName × BreakerState) × List StageState
unfolding select_on set_default
select_endpoint now s xs states =
    let (st, rows) = set_default s states in
    let (chosen, st') = select_on now xs st in (chosen, put (of_stage s) st' rows)

-- `get_breaker_state`
unfoldable pub get_breaker_state :
    String → EndpointName → List StageState → BreakerState × List StageState
unfolding set_default
get_breaker_state s e states =
    let (st, rows) = set_default s states in ((get_record st e).state, rows)

-- `reset_breaker`
unfoldable pub reset_breaker : Option String → List StageState → List StageState
reset_breaker none states = []
reset_breaker (some s) [] = []
reset_breaker (some s) (st ∷ rest) =
    let kept = reset_breaker (some s) rest in if of_stage s st then kept else st ∷ kept
