-- ===== src/Scheduler/Invariant/Reserve.antt =====
-- One step of the reservation of app/services/scheduler/scheduler_service.py keeps the table sound, and gives
-- its user no slot above the concurrency limit.
use ai_jin_shu.Common.{
  ℕ, ◌∙◌, ◌+◌, ◌≤◌, ◌≡◌, refl, sym, subst, Bool, true, none, String, List, [], ◌∷◌, ◌++◌, str_eq,
  Result, ok, ◌>>=◌, >>=-eq-ok, ok-injective, arith, Bool-cases, Option-cases, inl, inr,
  if◌then◌else◌, ==_iff,
}
use ai_jin_shu.Common.Table.{find, put, count, weight, find-passes, All-put}
use ai_jin_shu.Json.{Numerals}
use ai_jin_shu.Tasks.{CreationTask, Error, holds_slot}
use ai_jin_shu.Scheduler.Store.{Db, has_id, in_slot_of, save}
use ai_jin_shu.Scheduler.Rows.Keeps.{IsWell}
use ai_jin_shu.Scheduler.Payload.{
  prepare_generation, prepare_rewrite, prepare_lane, prepare_storyboard,
  prepare_worker_task_dispatch, mark_request,
}
use ai_jin_shu.Scheduler.Invariant.{DistinctIds, IsOld, IsSound, put-DistinctIds}

returns-same :
    {A : Type 0} (m : Result Error A) (g : A → Db) (db db' : Db)
    → ((a : A) → ((g a).tasks ≡ db.tasks) × ((g a).next_id ≡ db.next_id))
    → (m >>= λ a. ok (g a)) ≡ ok db'
    → (db'.tasks ≡ db.tasks) × (db'.next_id ≡ db.next_id)
returns-same m g db db' same h =
    let (a, _, e) = >>=-eq-ok m (λ a. ok (g a)) db' h in
    subst (λ (d : Db). (d.tasks ≡ db.tasks) × (d.next_id ≡ db.next_id)) (ok-injective (g a) db' e)
      (same a)

-- Preparing a worker's context does not touch the task table.
pub tasks-prepare :
    (py : Numerals) (t : CreationTask) (w : String) (db db' : Db)
    → prepare_worker_task_dispatch py t w db ≡ ok db'
    → (db'.tasks ≡ db.tasks) × (db'.next_id ≡ db.next_id)
unfolding prepare_worker_task_dispatch
tasks-prepare py t w db db' h = elim (Bool-cases (str_eq t.task_type "generation")) [
  | inl e ↦
      returns-same (prepare_generation py t w)
        (λ g. record db { generation_tasks = db.generation_tasks ++ g ∷ [] }) db db'
        (λ _. (refl, refl)) (rw e at h)
  | inr e ↦ elim (Bool-cases (str_eq t.task_type "rewrite")) [
    | inl f ↦
        returns-same (prepare_rewrite py t)
          (λ i. record db { rewrites = mark_request py i t db.rewrites }) db db' (λ _. (refl, refl))
          (rw (e, f) at h)
    | inr f ↦ elim (Bool-cases (str_eq t.task_type "storyboard_lane")) [
      | inl g ↦
          returns-same (prepare_lane py t db) (λ _. db) db db' (λ _. (refl, refl))
            (rw (e, f, g) at h)
      | inr g ↦ elim (Bool-cases (str_eq t.task_type "storyboard")) [
        | inl i ↦
            returns-same (prepare_storyboard py t db) (λ _. db) db db' (λ _. (refl, refl))
              (rw (e, f, g, i) at h)
        | inr i ↦ absurd (ground arith)
      ]
    ]
  ]
]

count-put-le :
    (p q : CreationTask → Bool) (b : CreationTask) (xs : List CreationTask)
    → count q (put p b xs) ≤ count q xs + weight q b
count-put-le p q b [] = omega arith
count-put-le p q b (x ∷ xs) = elim (Bool-cases (p x)) [
  | inl t ↦ rw t (omega arith)
  | inr t ↦ rw t (omega (arith, count-put-le p q b xs))
]

put-none :
    (p : CreationTask → Bool) (b : CreationTask) (xs : List CreationTask)
    → find p xs ≡ none
    → put p b xs ≡ xs
put-none p b [] h = refl
put-none p b (x ∷ xs) h = ground (arith, put-none p b xs)

put_own-DistinctIds :
    (b : CreationTask) (ts : List CreationTask)
    → DistinctIds ts
    → DistinctIds (put (has_id b.id) b ts)
put_own-DistinctIds b ts d = elim (Option-cases (find (has_id b.id) ts)) [
  | inl e ↦ rw (put-none (has_id b.id) b ts e) d
  | inr (a, e) ↦
      put-DistinctIds (has_id b.id) a b ts e
        (sym ((==_iff a.id b.id).0 (find-passes (has_id b.id) ts a e))) d
]

-- A step of a reservation for the user: it keeps the table sound, and gives the user at most `n`
-- slots and nobody else any.
pub record Grants (uuid : String) (n : ℕ) (db db' : Db) : Type 0 where
  pub sound : IsSound db.tasks db.next_id → IsSound db'.tasks db'.next_id
  pub next : db'.next_id ≡ db.next_id
  pub slots :
      (v : String)
      → count (in_slot_of v) db'.tasks
        ≤ count (in_slot_of v) db.tasks + (if str_eq uuid v then n else 0)

pub Grants-trans :
    (uuid : String) (m n : ℕ) (a b c : Db)
    → Grants uuid m a b
    → Grants uuid n b c
    → Grants uuid (m + n) a c
Grants-trans uuid m n a b c f g = record {
  sound = λ s. g.sound (f.sound s);
  next = g.next ∙ f.next;
  slots = λ v. ground (arith, f.slots v, g.slots v);
}

pub Grants-le : (uuid : String) (m n : ℕ) (a b : Db) → m ≤ n → Grants uuid m a b → Grants uuid n a b
Grants-le uuid m n a b l f = record {
  sound = f.sound;
  next = f.next;
  slots = λ v. ground (arith, f.slots v);
}

pub save-Grants :
    (now : ℕ) (uuid : String) (n : ℕ) (u : CreationTask) (db : Db)
    → IsWell u
    → IsOld db.next_id u
    → u.user_uuid ≡ uuid
    → (holds_slot u.status ≡ true → 1 ≤ n)
    → Grants uuid n db (save now u db)
unfolding save
save-Grants now uuid n u db w o e h = record {
  sound = λ s. record {
    rows = All-put IsWell (has_id u.id) _ db.tasks s.rows (ground arith);
    distinct = put_own-DistinctIds (record u { updated_at = now }) db.tasks s.distinct;
    old = All-put (IsOld db.next_id) (has_id u.id) _ db.tasks s.old o;
  };
  next = refl;
  slots = λ v.
      ground
        (arith, count-put-le (has_id u.id) (in_slot_of v) (record u { updated_at = now }) db.tasks);
}
