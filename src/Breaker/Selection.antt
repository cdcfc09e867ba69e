-- ===== src/Breaker/Selection.antt =====
-- Which endpoint `select_endpoint` of app/core/llm_circuit_breaker.py returns.
use ai_jin_shu.Common.{ℕ, ◌+◌, ◌<◌, ◌≡◌, ◌≢◌, true, false, List, [], ◌&&◌, arith}
use ai_jin_shu.Breaker.{
  EndpointName, primary, fallback_a, fallback_b, open_, StageState, excludes, select_on,
}

-- An excluded endpoint is returned only when all three are excluded.
pub select_on-excluded :
    (now : ℕ) (xs : List EndpointName) (st : StageState)
    → excludes xs (select_on now xs st).0.0 ≡ true
    → (excludes xs primary ≡ true)
      × (excludes xs fallback_a ≡ true)
      × (excludes xs fallback_b ≡ true)
unfolding select_on
select_on-excluded now xs st h = ground arith

-- Before its cooldown is over an open primary is not returned while a fallback is allowed.
pub open_primary_avoided :
    (now : ℕ) (xs : List EndpointName) (st : StageState)
    → st.primary.state ≡ open_
    → now < st.primary.opened_at + st.config.cooldown_seconds
    → excludes xs fallback_a && excludes xs fallback_b ≡ false
    → (select_on now xs st).0.0 ≢ primary
unfolding select_on
open_primary_avoided now xs st o c f = ground arith

-- With every breaker open and the cooldown not over, the call goes to the first fallback.
pub all_open_falls_back :
    (now : ℕ) (st : StageState)
    → st.primary.state ≡ open_
    → st.fallback_a.state ≡ open_
    → st.fallback_b.state ≡ open_
    → now < st.primary.opened_at + st.config.cooldown_seconds
    → (select_on now [] st).0 ≡ (fallback_a, open_)
unfolding select_on
all_open_falls_back now st p a b c = ground arith
