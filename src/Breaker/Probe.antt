-- ===== src/Breaker/Probe.antt =====
-- The half-open probe of app/core/llm_circuit_breaker.py: one call is let through, and the primary
-- waits for its outcome.
use ai_jin_shu.Common.{ℕ, ◌+◌, ◌≤◌, ◌≡◌, ◌≢◌, Bool, false, List, [], ◌∷◌, ◌&&◌, arith}
use ai_jin_shu.Breaker.{
  EndpointName, primary, fallback_a, fallback_b, open_, half_open, StageState, excludes, select_on,
  record_on,
}

-- What can happen to a stage while no outcome of a call to the primary is recorded.
pub data Event : Type 0 where
  selects : ℕ → List EndpointName → Event
  records_a records_b : ℕ → Bool → Event

abbrev pub step : Event → StageState → StageState
step (selects now xs) st = (select_on now xs st).1
step (records_a now ok) st = record_on now fallback_a ok st
step (records_b now ok) st = record_on now fallback_b ok st

abbrev pub run : List Event → StageState → StageState
run [] st = st
run (e ∷ es) st = run es (step e st)

pub record AwaitsProbe (st : StageState) : Type 0 where
  pub half : st.primary.state ≡ half_open
  pub taken : st.primary.half_open_probe_pending ≡ false

step-AwaitsProbe : (e : Event) (st : StageState) → AwaitsProbe st → AwaitsProbe (step e st)
unfolding select_on record_on
step-AwaitsProbe (selects now xs) st h = ground arith
step-AwaitsProbe (records_a now b) st h = ground arith
step-AwaitsProbe (records_b now b) st h = ground arith

run-AwaitsProbe : (es : List Event) (st : StageState) → AwaitsProbe st → AwaitsProbe (run es st)
run-AwaitsProbe [] st h = h
run-AwaitsProbe (e ∷ es) st h = run-AwaitsProbe es (step e st) (step-AwaitsProbe e st h)

-- Once the cooldown of an open primary is over, a selection that does not exclude it lets one probe
-- through.
pub cooldown_probe :
    (now : ℕ) (xs : List EndpointName) (st : StageState)
    → st.primary.state ≡ open_
    → st.primary.opened_at + st.config.cooldown_seconds ≤ now
    → excludes xs primary ≡ false
    → ((select_on now xs st).0 ≡ (primary, half_open)) × AwaitsProbe (select_on now xs st).1
unfolding select_on
cooldown_probe now xs st o c x = (ground arith, ground arith)

awaiting_avoids :
    (now : ℕ) (xs : List EndpointName) (st : StageState)
    → AwaitsProbe st
    → excludes xs fallback_a && excludes xs fallback_b ≡ false
    → (select_on now xs st).0.0 ≢ primary
unfolding select_on
awaiting_avoids now xs st h x = ground arith

-- Once the cooldown of an open primary is over and a selection has let one probe through, no later
-- selection returns the primary while a fallback is allowed, until the outcome of a call to it is
-- recorded, however much time passes and whatever is recorded of the fallbacks.
pub single_probe :
    (now later : ℕ) (xs ys : List EndpointName) (es : List Event) (st : StageState)
    → st.primary.state ≡ open_
    → st.primary.opened_at + st.config.cooldown_seconds ≤ now
    → excludes xs primary ≡ false
    → excludes ys fallback_a && excludes ys fallback_b ≡ false
    → (select_on later ys (run es (select_on now xs st).1)).0.0 ≢ primary
single_probe now later xs ys es st o c x y =
    let awaiting = (cooldown_probe now xs st o c x).1 in
    awaiting_avoids later ys _ (run-AwaitsProbe es _ awaiting) y
