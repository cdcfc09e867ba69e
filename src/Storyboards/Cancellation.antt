-- ===== src/Storyboards/Cancellation.antt =====
-- The action `cancel` of `run_action` on a lane whose task is over.
use ai_jin_shu.Common.{
  ℕ, ◌≡◌, refl, sym, subst, ◌∙◌, ◌⊎◌, true, false, Bool, inl, inr, Bool-cases, ==_iff, Option, none,
  some, List, [], ◌∷◌, All, String, ◌==◌, str_eq, ok, select,
}
use ai_jin_shu.Common.Table.{All-imp, find, put, find-passes, find-put_self, find-put_other}
use ai_jin_shu.Tasks.{CreationTask, is_terminal}
use ai_jin_shu.Scheduler.Store.{Db, get_task_by_public_id}
use ai_jin_shu.Scheduler.Operations.{cancel_task}
use ai_jin_shu.Storyboards.{
  cancelled, StoryboardRunLane, StoryboardRun, StoryboardProject, Studio, list_run_lanes,
  get_project, is_cancelled, is_over, save_run, changed_lane, update_run_lane_state,
}
use ai_jin_shu.Storyboards.Actions.{
  Actor, cancel, task_action, act_on_lane, act_on_lanes, lane_after, cancel_project, cancelled_run,
  action_logged, cancel_run, run_action,
}

-- A lane whose row is in the table and whose task is over: completed, failed or cancelled.
pub record IsOverLane (a : Actor) (db : Db) (l : StoryboardRunLane) : Type 0 where
  pub task : String
  pub work : CreationTask
  pub named : str_eq task "" ≡ false
  pub of_lane : l.creation_task_public_id ≡ some task
  pub found : get_task_by_public_id db task (some a.user_uuid) ≡ some work
  pub over : is_terminal work.status ≡ true

-- The row of the lane is there.
abbrev Stands : List StoryboardRunLane → ℕ → Type 0
Stands xs i = (k : StoryboardRunLane) × (find (λ x. x.id == i) xs ≡ some k)

-- The row of the lane is one that is cancelled.
abbrev pub IsOff : List StoryboardRunLane → ℕ → Type 0
IsOff xs i =
    (k : StoryboardRunLane) × (find (λ x. x.id == i) xs ≡ some k)
    × (k.status ≡ cancelled)
    × (k.run_state ≡ cancelled)

-- A write to one row leaves each other row.
put-cases :
    (i j : ℕ) (y k : StoryboardRunLane) (xs : List StoryboardRunLane)
    → find (λ x. x.id == j) xs ≡ some k
    → (y.id == j) ≡ true
    → (find (λ x. x.id == i) (put (λ x. x.id == j) y xs) ≡ some y)
      ⊎ (find (λ x. x.id == i) (put (λ x. x.id == j) y xs) ≡ find (λ x. x.id == i) xs)
put-cases i j y k xs h t = elim (Bool-cases (j == i)) [
  | inl e ↦ inl (
      subst (λ n. find (λ x. x.id == n) (put (λ x. x.id == j) y xs) ≡ some y) ((==_iff j i).0 e)
        (find-put_self (λ x. x.id == j) y xs k h t))
  | inr e ↦ inr (
      find-put_other (λ x. x.id == j) (λ x. x.id == i) y xs k h
        (subst (λ n. (n == i) ≡ false)
          (sym ((==_iff k.id j).0 (find-passes (λ x. x.id == j) xs k h))) e)
        (subst (λ n. (n == i) ≡ false) (sym ((==_iff y.id j).0 t)) e))
]

module _ (a : Actor) (db : Db) (l : StoryboardRunLane) (o : IsOverLane a db l) where
  over-unchanged : task_action a cancel o.task db ≡ ok (o.work, db)
  unfolding task_action cancel_task
  over-unchanged = rw o.found (rw o.over refl)

  act-update :
      (s : Studio)
      → s.scheduler ≡ db
      → (act_on_lane a cancel l s).1
        ≡ update_run_lane_state a.now l.id (lane_after cancel l.lane) (record s { scheduler = db })
  unfolding act_on_lane
  act-update s e = rw o.of_lane (rw o.named (rw e (rw over-unchanged refl)))

  -- One lane: its row is cancelled, each row that is there or that is cancelled stays so, and the
  -- scheduler's tables stay as they were.
  act-IsOff :
      (s : Studio) (i : ℕ)
      → s.scheduler ≡ db
      → Stands s.lanes l.id
      → IsOff (act_on_lane a cancel l s).1.lanes l.id
        × (Stands s.lanes i → Stands (act_on_lane a cancel l s).1.lanes i)
        × (IsOff s.lanes i → IsOff (act_on_lane a cancel l s).1.lanes i)
        × ((act_on_lane a cancel l s).1.scheduler ≡ db)
  unfolding update_run_lane_state
  act-IsOff s i e (k, h) =
      let y = changed_lane a.now (lane_after cancel l.lane) k in
      let t = find-passes (λ x. x.id == l.id) s.lanes k h in
      rw (act-update s e) (
        rw (h, update_run_lane_state)
          (
            (y, find-put_self (λ x. x.id == l.id) y s.lanes k h t, refl, refl),
            (λ (m, f). elim (put-cases i l.id y k s.lanes h t) [
              | inl own ↦ (y, own)
              | inr other ↦ (m, other ∙ f)
            ]),
            (λ (m, f, c, d). elim (put-cases i l.id y k s.lanes h t) [
              | inl own ↦ (y, own, refl, refl)
              | inr other ↦ (m, other ∙ f, c, d)
            ]),
            refl,
          ))

All-Stands :
    (p : StoryboardRunLane → Bool) (xs : List StoryboardRunLane)
    → All (λ l. Stands xs l.id) (select p xs)
All-Stands p [] = tt
All-Stands p (x ∷ xs) =
    let rest =
      All-imp (λ l. Stands xs l.id) (λ l. Stands (x ∷ xs) l.id) (select p xs)
        (λ l (k, h). elim (Bool-cases (x.id == l.id)) [
          | inl e ↦ (x, rw e refl)
          | inr e ↦ (k, rw e h)
        ])
        (All-Stands p xs) in
    elim (Bool-cases (p x)) [
      | inl e ↦ rw e ((x, rw ((==_iff x.id x.id).1 refl) refl), rest)
      | inr e ↦ rw e rest
    ]

-- What the loop over such lanes leaves.
acts-IsOff :
    (a : Actor) (db : Db) (ls : List StoryboardRunLane) (s : Studio)
    → s.scheduler ≡ db
    → All (IsOverLane a db) ls
    → All (λ l. Stands s.lanes l.id) ls
    → All (λ l. IsOff (act_on_lanes a cancel ls s).1.lanes l.id) ls
      × ((i : ℕ) → IsOff s.lanes i → IsOff (act_on_lanes a cancel ls s).1.lanes i)
      × ((act_on_lanes a cancel ls s).1.scheduler ≡ db)
unfolding act_on_lanes
acts-IsOff a db [] s e o h = (tt, (λ i c. c), e)
acts-IsOff a db (l ∷ ls) s e o h =
    let after = (act_on_lane a cancel l s).1 in
    let one = λ (i : ℕ). act-IsOff a db l o.0 s i e h.0 in
    let (all, kept, same) = acts-IsOff a db ls after (one 0).3 o.1 (
      All-imp (λ k. Stands s.lanes k.id) (λ k. Stands after.lanes k.id) ls (λ k c. (one k.id).1 c)
        h.1) in
    ((kept l.id (one 0).0, all), (λ i c. kept i ((one i).2 c)), same)

cancel_project-lanes :
    (p : Option StoryboardProject) (s : Studio)
    → ((cancel_project p s).lanes ≡ s.lanes) × ((cancel_project p s).scheduler ≡ s.scheduler)
cancel_project-lanes none s = (refl, refl)
cancel_project-lanes (some p) s = (refl, refl)

-- Cancelling a run that is not cancelled, all of whose lanes have tasks that are over, succeeds. The
-- row of each lane is then cancelled, also that of a lane whose task has completed or failed, while
-- the scheduler's tables, and so the tasks, stay as they were.
pub cancel-over_lane :
    (a : Actor) (r : StoryboardRun) (s : Studio)
    → is_cancelled r.run_state ≡ false
    → All (IsOverLane a s.scheduler) (list_run_lanes r.id s)
    → (after : Studio) × (run_action a cancel r s ≡ ok after)
      × All (λ l. IsOff after.lanes l.id) (list_run_lanes r.id s)
      × (after.scheduler ≡ s.scheduler)
unfolding run_action cancel_run
cancel-over_lane a r s h o =
    let ls = list_run_lanes r.id s in
    let acted = save_run (cancelled_run a.now r) (act_on_lanes a cancel ls s).1 in
    let project = get_project r.storyboard_project_id acted in
    let (off, kept, same) =
      acts-IsOff a s.scheduler ls s refl o
        (All-Stands (λ l. l.storyboard_run_id == r.id) s.lanes) in
    let (lanes, scheduler) = cancel_project-lanes project acted in
    (
      action_logged a cancel r (cancel_project project acted),
      rw h (elim (Bool-cases (is_over r.run_state)) [ inl e ↦ rw e refl | inr e ↦ rw e refl ]),
      subst (λ xs. All (λ l. IsOff xs l.id) ls) (sym lanes) off,
      scheduler ∙ same,
    )
