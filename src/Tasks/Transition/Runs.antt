-- ===== src/Tasks/Transition/Runs.antt =====
-- Sequences of transitions by `transition_task_status` of
-- app/services/scheduler/scheduler_service.py.
use ai_jin_shu.Common.{
  ℕ, ◌≡◌, refl, ◌∙◌, Bool, true, false, not, List, [], ◌∷◌, all, ok, Result, ◌>>=◌, >>=-eq-ok,
  ok-injective, subst, arith,
}
use ai_jin_shu.Tasks.{CreationTask, Status, completed, Error, is_running}
use ai_jin_shu.Tasks.Transition.{Report, transition_task_status}

abbrev pub is_completed : Status → Bool
is_completed completed = true
is_completed s = false

-- One transition after the other, each at its own time; the first one that is refused ends them.
abbrev pub transitions : CreationTask → List (ℕ × Status × Report) → Result Error CreationTask
transitions t [] = ok t
transitions t ((now, to, r) ∷ rest) = transition_task_status now t to r >>= λ u. transitions u rest

abbrev pub skips_running : ℕ × Status × Report → Bool
skips_running (now, to, r) = not (is_running to)

one_step :
    (now : ℕ) (t u : CreationTask) (to : Status) (r : Report)
    → is_running to ≡ false
    → is_running t.status ≡ false
    → is_completed t.status ≡ false
    → transition_task_status now t to r ≡ ok u
    → (is_running u.status ≡ false)
      × (is_completed u.status ≡ false)
      × (u.started_at ≡ t.started_at)
unfolding transition_task_status
one_step now t u to r h a c e = ground arith

-- No sequence of transitions completes a task, or sets its time of start, without running it.
pub transitions-run_first :
    (t u : CreationTask) (steps : List (ℕ × Status × Report))
    → is_running t.status ≡ false
    → is_completed t.status ≡ false
    → all skips_running steps ≡ true
    → transitions t steps ≡ ok u
    → (is_completed u.status ≡ false) × (u.started_at ≡ t.started_at)
transitions-run_first t u [] a c h e =
    subst (λ (v : CreationTask). (is_completed v.status ≡ false) × (v.started_at ≡ t.started_at))
      (ok-injective t u e) (c, refl)
transitions-run_first t u ((now, to, r) ∷ rest) a c h e =
    let (v, made, more) =
      >>=-eq-ok (transition_task_status now t to r) (λ v. transitions v rest) u e in
    let (b, d, s) = one_step now t v to r (ground arith) a c made in
    let (k, m) = transitions-run_first v u rest b d (ground arith) more in (k, m ∙ s)
