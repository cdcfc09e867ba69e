-- ===== src/Scheduler/Invariant/Single.antt =====
-- The operations of app/services/scheduler/scheduler_service.py that change one row keep the table
-- sound and give no user a slot.
use ai_jin_shu.Common.{
  Result-cases, if◌then◌else◌, ℕ, subst, ap, ◌≡◌, refl, Bool, Option, none, some, String, Result,
  ok, err, ◌>>=◌, >>=-eq-ok, ok-injective, ◌++◌, arith, Option-cases, Bool-cases, inl, inr,
}
use ai_jin_shu.Common.Int.{ℤ, pos}
use ai_jin_shu.Common.Table.{find}
use ai_jin_shu.Json.{Json, Numerals}
use ai_jin_shu.Tasks.{CreationTask, Error, Status, is_terminal, is_running}
use ai_jin_shu.Tasks.Transition.{Report}
use ai_jin_shu.Scheduler.Store.{Db, has_id, is_public, save}
use ai_jin_shu.Scheduler.Rows.{
  marked_running, pause_row, cancel_row, resume_row, finalize_row, lease_ttl_seconds,
}
use ai_jin_shu.Scheduler.Rows.Keeps.{
  Keeps, marked_running-Keeps, pause_row-Keeps, cancel_row-Keeps, resume_row-Keeps,
  finalize_row-Keeps, refreshed-Keeps, released-Keeps, progressed-Keeps,
}
use ai_jin_shu.Scheduler.Progress.{Usage, progressed}
use ai_jin_shu.Scheduler.Operations.{
  change_row, mark_task_running, update_task_progress, heartbeat_task, release_lease, finalize_task,
  pause_task, resume_task, cancel_task, revocation, settled, cancel_found, mark_found,
}
use ai_jin_shu.Scheduler.Invariant.{IsQuiet, save-IsQuiet, IsQuiet-refl}

-- What a successful change of a row has found and written.
pub change_row-ok :
    (now : ℕ) (o : Option CreationTask) (f : CreationTask → Result Error CreationTask) (db : Db)
    (r : CreationTask × Db)
    → change_row now o f db ≡ ok r
    → (t : CreationTask) × (u : CreationTask) × (o ≡ some t)
      × (f t ≡ ok u)
      × ((u, save now u db) ≡ r)
change_row-ok now none f db r h = absurd (ground arith)
change_row-ok now (some t) f db r h = go (f t) refl h
  where
    go :
        (m : Result Error CreationTask)
        → f t ≡ m
        → (m >>= λ u. ok (u, save now u db)) ≡ ok r
        → (s : CreationTask) × (u : CreationTask) × (some t ≡ some s)
          × (f s ≡ ok u)
          × ((u, save now u db) ≡ r)
    go (ok u) e k = (t, u, refl, e, ground arith)
    go (err x) e k = absurd (ground arith)

-- An operation that loads one row, changes it and saves it is quiet if the change is.
pub change_row-IsQuiet :
    (now : ℕ) (p : CreationTask → Bool) (f : CreationTask → Result Error CreationTask) (db db' : Db)
    (v : CreationTask)
    → ((t u : CreationTask) → f t ≡ ok u → Keeps t u)
    → change_row now (find p db.tasks) f db ≡ ok (v, db')
    → IsQuiet db db'
change_row-IsQuiet now p f db db' v keeps h =
    let (t, u, found, changed, same) = change_row-ok now (find p db.tasks) f db (v, db') h in
    subst (IsQuiet db) (ap (λ (x : CreationTask × Db). x.1) same)
      (save-IsQuiet now p t u db found (keeps t u changed))

module _ (now : ℕ) (db db' : Db) where
  marked-IsQuiet :
      (i : ℕ) (w : String) (t v : CreationTask)
      → find (has_id i) db.tasks ≡ some t
      → mark_found now w db t ≡ ok (v, db')
      → IsQuiet db db'
  marked-IsQuiet i w t v e h = elim (Result-cases (marked_running now w t)) [
    | inr (x, m) ↦ absurd (ground arith)
    | inl (u, m) ↦
        let same : (if is_running t.status then db else save now u db) ≡ db' = ground arith in
        subst (IsQuiet db) same (elim (Bool-cases (is_running t.status)) [
          | inl r ↦ rw r (IsQuiet-refl db)
          | inr r ↦ rw r (save-IsQuiet now (has_id i) t u db e (marked_running-Keeps now w t u m))
        ])
  ]

  pub mark_task_running-IsQuiet :
      (i : ℕ) (w : String) (v : CreationTask)
      → mark_task_running now i w db ≡ ok (v, db')
      → IsQuiet db db'
  unfolding mark_task_running
  mark_task_running-IsQuiet i w v h = elim (Option-cases (find (has_id i) db.tasks)) [
    | inl e ↦ absurd (ground arith)
    | inr (t, e) ↦ marked-IsQuiet i w t v e (rw (e, mark_task_running) at h)
  ]

  pub pause_task-IsQuiet :
      (p user : String) (v : CreationTask) → pause_task now p user db ≡ ok (v, db') → IsQuiet db db'
  unfolding pause_task
  pause_task-IsQuiet p user v h =
      change_row-IsQuiet now (is_public p (some user)) (pause_row now) db db' v
        (pause_row-Keeps now) h

  pub resume_task-IsQuiet :
      (py : Numerals) (message : Option ℤ → String) (p user : String) (v : CreationTask)
      → resume_task py message now p user db ≡ ok (v, db')
      → IsQuiet db db'
  unfolding resume_task
  resume_task-IsQuiet py message p user v h =
      change_row-IsQuiet now (is_public p (some user)) (resume_row py message now) db db' v
        (resume_row-Keeps py message now) h

  pub heartbeat_task-IsQuiet : (i : ℕ) → IsQuiet db (heartbeat_task now i db).1
  heartbeat_task-IsQuiet i = elim (Option-cases (find (has_id i) db.tasks)) [
    | inl e ↦ unfold heartbeat_task in rw (e, heartbeat_task) (IsQuiet-refl db)
    | inr (t, e) ↦
        unfold heartbeat_task in
        rw (e, heartbeat_task)
          (save-IsQuiet now (has_id i) t _ db e (refreshed-Keeps now (pos lease_ttl_seconds) t))
  ]

  pub release_lease-IsQuiet : (i : ℕ) → IsQuiet db (release_lease now i db).1
  unfolding release_lease
  release_lease-IsQuiet i = elim (Option-cases (find (has_id i) db.tasks)) [
    | inl e ↦ rw (e, release_lease) (IsQuiet-refl db)
    | inr (t, e) ↦
        rw (e, release_lease) (save-IsQuiet now (has_id i) t _ db e (released-Keeps now t))
  ]

  -- The database of a returned pair.
  returned :
      {A : Type 0} (a b : A) (d : Db)
      → ◌≡◌ {A = Result Error (A × Db)} (ok (a, d)) (ok (b, db'))
      → IsQuiet db d
      → IsQuiet db db'
  returned {A} a b d h q =
      subst (IsQuiet db) (ap (λ (x : A × Db). x.1) (ok-injective (a, d) (b, db') h)) q

  pub update_task_progress-IsQuiet :
      (py : Numerals) (i : ℕ) (a : Usage) (v : Option CreationTask)
      → update_task_progress py now i a db ≡ ok (v, db')
      → IsQuiet db db'
  unfolding update_task_progress
  update_task_progress-IsQuiet py i a v h = elim (Option-cases (find (has_id i) db.tasks)) [
    | inl e ↦ returned none v db (rw (e, update_task_progress) at h) (IsQuiet-refl db)
    | inr (t, e) ↦
        let (u, made, same) =
          >>=-eq-ok (progressed py now a t) (λ u. ok (some u, save now u db)) (v, db')
            (rw (e, update_task_progress) at h) in
        returned (some u) v _ same
          (save-IsQuiet now (has_id i) t u db e (progressed-Keeps py now a t u made))
  ]

  settled-IsQuiet :
      (i : ℕ) (f : Status) (r : Report) (result : Option Json) (t : CreationTask)
      (o : Option CreationTask)
      → find (has_id i) db.tasks ≡ some t
      → finalize_row now f r result t ≡ ok o
      → IsQuiet db (settled now f t db o).1
  settled-IsQuiet i f r result t none e m = IsQuiet-refl db
  settled-IsQuiet i f r result t (some u) e m =
      save-IsQuiet now (has_id i) t u db e (finalize_row-Keeps now f r result t u m)

  pub finalize_task-IsQuiet :
      (i : ℕ) (f : Status) (r : Report) (result : Option Json) (v : Option CreationTask)
      → finalize_task now i f r result db ≡ ok (v, db')
      → IsQuiet db db'
  unfolding finalize_task
  finalize_task-IsQuiet i f r result v h = elim (Option-cases (find (has_id i) db.tasks)) [
    | inl e ↦ returned none v db (rw (e, finalize_task) at h) (IsQuiet-refl db)
    | inr (t, e) ↦
        let (o, made, same) =
          >>=-eq-ok (finalize_row now f r result t) (λ o. ok (settled now f t db o)) (v, db')
            (rw (e, finalize_task) at h) in
        returned (settled now f t db o).0 v _ same (settled-IsQuiet i f r result t o e made)
  ]

  cancelled-IsQuiet :
      (p user : String) (t v : CreationTask)
      → find (is_public p (some user)) db.tasks ≡ some t
      → cancel_found now db t ≡ ok (v, db')
      → IsQuiet db db'
  cancelled-IsQuiet p user t v e h = elim (Bool-cases (is_terminal t.status)) [
    | inl y ↦ returned t v db (rw y at h) (IsQuiet-refl db)
    | inr y ↦
        let (u, made, same) =
          >>=-eq-ok (cancel_row now t)
            (λ u. ok (u, record (save now u db) { effects = db.effects ++ revocation t })) (v, db')
            (rw y at h) in
        returned u v _ same
          (save-IsQuiet now (is_public p (some user)) t u db e (cancel_row-Keeps now t u made))
  ]

  pub cancel_task-IsQuiet :
      (p user : String) (v : CreationTask)
      → cancel_task now p user db ≡ ok (v, db')
      → IsQuiet db db'
  unfolding cancel_task
  cancel_task-IsQuiet p user v h = elim (Option-cases (find (is_public p (some user)) db.tasks)) [
    | inl e ↦ absurd (ground arith)
    | inr (t, e) ↦ cancelled-IsQuiet p user t v e (rw (e, cancel_task) at h)
  ]
