-- ===== src/Storyboards/Revival.antt =====
-- What `refresh_run_status` makes of a run some of whose lanes are completed and the others cancelled.
use mathlib.Core.Option as Option
use ai_jin_shu.Common.{
  ℕ, ◌≡◌, refl, ap, ◌∙◌, subst, ==_iff, Bool, true, false, ◌||◌, Option, none, some, List, [], ◌∷◌,
  arith, ◌==◌,
}
use ai_jin_shu.Common.Table.{find, put, find-passes, find-put_self}
use ai_jin_shu.Storyboards.{
  RunState, completed, failed, cancelled, queued, running, StoryboardProject, StoryboardRun,
  StoryboardRunLane, Studio, is_completed, is_failed, is_cancelled, is_paused, get_run,
  list_run_lanes, get_project, save_run,
}
use ai_jin_shu.Storyboards.Status.{
  every, some_lane, aggregate, refreshed_run, preferred, follow_project, refresh_run_status,
}

abbrev is_settled : RunState → Bool
is_settled s = is_completed s || is_cancelled s

settled-failed : (s : RunState) → is_settled s ≡ true → is_failed s ≡ false
settled-failed completed h = refl
settled-failed cancelled h = refl
settled-failed queued h = ground arith
settled-failed s h = cc

module _ (p q : RunState → Bool) where
  every-none :
      (ls : List StoryboardRunLane)
      → ((s : RunState) → p s ≡ true → q s ≡ false)
      → every p ls ≡ true
      → some_lane q ls ≡ false
  every-none [] h e = refl
  every-none (l ∷ ls) h e = ground (arith, h l.status, every-none ls h)

  some-not_every :
      (ls : List StoryboardRunLane)
      → ((s : RunState) → p s ≡ true → q s ≡ false)
      → some_lane p ls ≡ true
      → every q ls ≡ false
  some-not_every [] h e = ground arith
  some-not_every (l ∷ ls) h e = ground (arith, h l.status, some-not_every ls h)

completed-cancelled : (s : RunState) → is_completed s ≡ true → is_cancelled s ≡ false
completed-cancelled completed h = refl
completed-cancelled queued h = ground arith
completed-cancelled s h = cc

cancelled-completed : (s : RunState) → is_cancelled s ≡ true → is_completed s ≡ false
cancelled-completed cancelled h = refl
cancelled-completed queued h = ground arith
cancelled-completed s h = cc

settled-paused : (s : RunState) → is_settled s ≡ true → is_paused s ≡ false
settled-paused completed h = refl
settled-paused cancelled h = refl
settled-paused queued h = ground arith
settled-paused s h = cc

settled-aggregate :
    (ls : List StoryboardRunLane)
    → some_lane is_completed ls ≡ true
    → some_lane is_cancelled ls ≡ true
    → every is_settled ls ≡ true
    → aggregate ls ≡ running
settled-aggregate ls h k e =
    rw (some-not_every is_cancelled is_completed ls cancelled-completed k) (
      rw (every-none is_settled is_failed ls settled-failed e) (
        rw (some-not_every is_completed is_cancelled ls completed-cancelled h)
          (rw (every-none is_settled is_paused ls settled-paused e) refl)))

follow-runs :
    (x : RunState) (best : StoryboardRunLane) (o : Option StoryboardProject) (s : Studio)
    → (follow_project x best o s).runs ≡ s.runs
follow-runs x best none s = refl
follow-runs completed best (some p) s = refl
follow-runs failed best (some p) s = refl
follow-runs cancelled best (some p) s = refl
follow-runs queued best (some p) s = refl
follow-runs x best (some p) s = refl

put-find :
    (i : ℕ) (b r : StoryboardRun) (rs : List StoryboardRun)
    → b.id ≡ i
    → find (λ x. x.id == i) rs ≡ some r
    → find (λ x. x.id == i) (put (λ x. x.id == b.id) b rs) ≡ some b
put-find i b r rs e =
    subst
      (λ j.
        find (λ x. x.id == j) rs ≡ some r
        → find (λ x. x.id == j) (put (λ x. x.id == b.id) b rs) ≡ some b)
      e (λ h. find-put_self (λ x. x.id == b.id) b rs r h ((==_iff b.id b.id).1 refl))

-- The row of a run after the query for its status.
refresh-run :
    (now i : ℕ) (s : Studio) (r : StoryboardRun) (l : StoryboardRunLane)
    (ls : List StoryboardRunLane)
    → get_run i s ≡ some r
    → list_run_lanes i s ≡ l ∷ ls
    → get_run i (refresh_run_status now i s) ≡ some (refreshed_run now (l ∷ ls) r)
unfolding refresh_run_status
refresh-run now i s r l ls h k =
    let b = refreshed_run now (l ∷ ls) r in
    let passes = find-passes (λ x. x.id == i) s.runs r h in
    let mine : r.id ≡ i = (==_iff r.id i).0 passes in
    rw (h, refresh_run_status)
      (rw k (
        ap (find (λ x. x.id == i)) (
          follow-runs (aggregate (l ∷ ls)) (preferred l ls) (get_project r.storyboard_project_id s)
            (save_run b s))
        ∙ put-find i b r s.runs mine h))

-- A run with lanes that are completed and lanes that are cancelled, and no others, is set to running
-- again by a query for its status, whatever its own status was.
pub refresh-revives :
    (now i : ℕ) (s : Studio) (r : StoryboardRun)
    → get_run i s ≡ some r
    → some_lane is_completed (list_run_lanes i s) ≡ true
    → some_lane is_cancelled (list_run_lanes i s) ≡ true
    → every (λ x. is_completed x || is_cancelled x) (list_run_lanes i s) ≡ true
    → Option.map (λ x. x.status) (get_run i (refresh_run_status now i s)) ≡ some running
refresh-revives now i s r h c k e = go (list_run_lanes i s) refl
  where
    go :
        (ls : List StoryboardRunLane)
        → list_run_lanes i s ≡ ls
        → Option.map (λ x. x.status) (get_run i (refresh_run_status now i s)) ≡ some running
    go [] q = absurd (let x = rw q at c in cc)
    go (l ∷ ls) q =
        ap (Option.map (λ x. x.status)) (refresh-run now i s r l ls h q)
        ∙ ap some (settled-aggregate (l ∷ ls) (rw q at c) (rw q at k) (rw q at e))
