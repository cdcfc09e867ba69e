-- ===== src/Breaker/Stages.antt =====
-- The breakers of different stages in app/core/llm_circuit_breaker.py.
use ai_jin_shu.Common.{
  ℕ, ◌≡◌, ◌∙◌, refl, Bool, true, false, none, some, String, List, [], ◌∷◌, ◌++◌, str_eq, eq_iff,
  eq_refl, arith, Option-cases, inl, inr,
}
use ai_jin_shu.Common.Table.{find, put, find-passes, find-put_self, find-put_other}
use ai_jin_shu.Breaker.{
  EndpointName, StageState, fresh_stage, of_stage, set_default, record_on, record_call, select_on,
  select_endpoint,
}

-- The entry that `setdefault` returns stands in the table, under its own name.
set_default-found :
    (s : String) (states : List StageState)
    → find (of_stage s) (set_default s states).1 ≡ some (set_default s states).0
unfolding set_default
set_default-found s states = elim (Option-cases (find (of_stage s) states)) [
  | inl e ↦ rw (set_default, e) (find-append_fresh s states e)
  | inr (st, e) ↦ rw (set_default, e) e
]
  where
    find-append_fresh :
        (s : String) (states : List StageState)
        → find (of_stage s) states ≡ none
        → find (of_stage s) (states ++ fresh_stage s ∷ []) ≡ some (fresh_stage s)
    find-append_fresh s [] h = rw (eq_refl s) refl
    find-append_fresh s (st ∷ rest) h = ground (arith, find-append_fresh s rest)

set_default-other :
    (s u : String) (states : List StageState)
    → str_eq s u ≡ false
    → find (of_stage u) (set_default s states).1 ≡ find (of_stage u) states
unfolding set_default
set_default-other s u states h = elim (Option-cases (find (of_stage s) states)) [
  | inl e ↦ rw (set_default, e) (find-append_other states)
  | inr (st, e) ↦ rw (set_default, e) refl
]
  where
    find-append_other :
        (states : List StageState)
        → find (of_stage u) (states ++ fresh_stage s ∷ []) ≡ find (of_stage u) states
    find-append_other [] = rw h refl
    find-append_other (st ∷ rest) = ground (arith, find-append_other rest)

set_default-stage :
    (s : String) (states : List StageState) → of_stage s (set_default s states).0 ≡ true
set_default-stage s states = find-passes (of_stage s) _ _ (set_default-found s states)

-- A write to the entry of the stage is seen under its name only.
write-local :
    (s u : String) (st : StageState) (states : List StageState)
    → str_eq s u ≡ false
    → st.stage ≡ (set_default s states).0.stage
    → (find (of_stage s) (put (of_stage s) st (set_default s states).1) ≡ some st)
      × (find (of_stage u) (put (of_stage s) st (set_default s states).1)
          ≡ find (of_stage u) states)
write-local s u st states h e =
    let named : str_eq st.stage s ≡ true = rw e (set_default-stage s states) in
    let found = set_default-found s states in
    let is_s : (x : String) → str_eq x s ≡ true → str_eq x u ≡ false =
      λ x k. ground (arith, eq_iff x s, eq_iff x u, eq_iff s u) in
    (
      find-put_self (of_stage s) st _ _ found named,
      find-put_other (of_stage s) (of_stage u) st _ _ found
            (is_s (set_default s states).0.stage (set_default-stage s states)) (is_s st.stage named)
          ∙ set_default-other s u states h,
    )

record_on-stage :
    (now : ℕ) (e : EndpointName) (success : Bool) (st : StageState)
    → (record_on now e success st).stage ≡ st.stage
unfolding record_on
record_on-stage now e success st = ground arith

select_on-stage :
    (now : ℕ) (xs : List EndpointName) (st : StageState) → (select_on now xs st).1.stage ≡ st.stage
unfolding select_on
select_on-stage now xs st = ground arith

-- A recorded call and a selection for one stage change the entry of that stage as `record_on` and
-- `select_on` say, from a fresh entry if there was none, and leave every other stage as it was.
pub stages_are_independent :
    (now : ℕ) (s u : String) (e : EndpointName) (success : Bool) (xs : List EndpointName)
    (states : List StageState)
    → str_eq s u ≡ false
    → let st = (set_default s states).0 in
      let called = (record_call now s e success states).1 in
      let selected = (select_endpoint now s xs states).1 in
      (find (of_stage s) called ≡ some (record_on now e success st))
      × (find (of_stage u) called ≡ find (of_stage u) states)
      × (find (of_stage s) selected ≡ some (select_on now xs st).1)
      × (find (of_stage u) selected ≡ find (of_stage u) states)
unfolding record_call select_endpoint
stages_are_independent now s u e success xs states h =
    let st = (set_default s states).0 in
    let (a, b) =
      write-local s u (record_on now e success st) states h (record_on-stage now e success st) in
    let (c, d) = write-local s u (select_on now xs st).1 states h (select_on-stage now xs st) in
    (a, b, c, d)
