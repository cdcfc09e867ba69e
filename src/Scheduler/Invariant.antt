-- ===== src/Scheduler/Invariant.antt =====
-- The invariant of the task table, and what one changed row does to it.
pub mod Single
pub mod Bulk
pub mod Reserve
pub mod Batch
pub mod Capacity
pub mod Reach
use mathlib.Core.Option.{some-injective}
use ai_jin_shu.Common.{
  ℕ, suc, subst, ◌∙◌, ◌+◌, ◌≤◌, ◌<◌, ◌≡◌, refl, sym, ap, Bool, true, false, Option, none, some,
  String, List, [], ◌∷◌, ◌++◌, map, All, ◌==◌, ==_iff, str_eq, if◌then◌else◌, arith, Bool-cases,
  inl, inr,
}
use ai_jin_shu.Common.Table.{
  find, put, count, weight, find-passes, count-put, All-find, All-put, All-map, All-append_one,
  count-append_one, count-map-le,
}
use ai_jin_shu.Tasks.{CreationTask, holds_slot}
use ai_jin_shu.Scheduler.Store.{Db, has_id, save, in_slot_of, count_user_running_slots}
use ai_jin_shu.Scheduler.Rows.Keeps.{IsWell, Keeps}

-- No two rows have one id.
abbrev pub HasOther : CreationTask → CreationTask → Type 0
HasOther t u = has_id t.id u ≡ false

abbrev pub DistinctIds : List CreationTask → Type 0
DistinctIds [] = Unit
DistinctIds (t ∷ ts) = All (HasOther t) ts × DistinctIds ts

abbrev pub IsOld : ℕ → CreationTask → Type 0
IsOld n t = t.id < n

pub record IsSound (tasks : List CreationTask) (next_id : ℕ) : Type 0 where
  pub rows : All IsWell tasks
  pub distinct : DistinctIds tasks
  pub old : All (IsOld next_id) tasks

-- No user holds more slots than before.
abbrev pub NoMoreSlots : List CreationTask → List CreationTask → Type 0
NoMoreSlots new old = (uuid : String) → count (in_slot_of uuid) new ≤ count (in_slot_of uuid) old

flip_ne : (a b : ℕ) → (a == b) ≡ false → (b == a) ≡ false
flip_ne a b h = ground arith

head_found :
    (p : CreationTask → Bool) (u t : CreationTask) (us : List CreationTask)
    → find p (u ∷ us) ≡ some t
    → p u ≡ true
    → u ≡ t
head_found p u t us h e = some-injective u t (rw e at h)

find_self : (u : CreationTask) (us : List CreationTask) → find (has_id u.id) (u ∷ us) ≡ some u
find_self u us = rw ((==_iff u.id u.id).1 refl)

-- A row that a query finds is the row of its id.
pub find-id :
    (p : CreationTask → Bool) (ts : List CreationTask) (t : CreationTask)
    → DistinctIds ts
    → find p ts ≡ some t
    → find (has_id t.id) ts ≡ some t
find-id p [] t d h = absurd (ground arith)
find-id p (u ∷ us) t d h = elim (Bool-cases (p u)) [
  | inl e ↦
      subst (λ x. find (has_id x.id) (u ∷ us) ≡ some x) (head_found p u t us h e) (find_self u us)
  | inr e ↦
      let h' : find p us ≡ some t = rw e at h in
      let o : has_id u.id t ≡ false = All-find (HasOther u) p us t d.0 h' in
      let o' : has_id t.id u ≡ false = flip_ne t.id u.id o in rw o' (find-id p us t d.1 h')
]

put-HasOther :
    (p : CreationTask → Bool) (v t b : CreationTask) (ts : List CreationTask)
    → find p ts ≡ some t
    → b.id ≡ t.id
    → All (HasOther v) ts
    → All (HasOther v) (put p b ts)
put-HasOther p v t b ts f e h =
    All-put (HasOther v) p b ts h (rw e (All-find (HasOther v) p ts t h f))

put-DistinctIds :
    (p : CreationTask → Bool) (t b : CreationTask) (ts : List CreationTask)
    → find p ts ≡ some t
    → b.id ≡ t.id
    → DistinctIds ts
    → DistinctIds (put p b ts)
put-DistinctIds p t b [] f e h = h
put-DistinctIds p t b (u ∷ us) f e h = elim (Bool-cases (p u)) [
  | inl y ↦
      let same : u.id ≡ b.id = ap (λ (x : CreationTask). x.id) (head_found p u t us f y) ∙ sym e in
      rw y (subst (λ i. All (λ x. has_id i x ≡ false) us) same h.0, h.1)
  | inr y ↦
      let f' : find p us ≡ some t = rw y at f in
      rw y (put-HasOther p u t b us f' e h.0, put-DistinctIds p t b us f' e h.1)
]

weight-Keeps :
    (now : ℕ) (uuid : String) (t u : CreationTask)
    → Keeps t u
    → weight (in_slot_of uuid) (record u { updated_at = now }) ≤ weight (in_slot_of uuid) t
weight-Keeps now uuid t u k = rw k.same_user (ground arith)

-- One row takes a new value that keeps what `Keeps` says.
module _ (now : ℕ) (p : CreationTask → Bool) (t u : CreationTask) (db : Db)
    (found : find p db.tasks ≡ some t) (keeps : Keeps t u)
    (sound : IsSound db.tasks db.next_id) where
  abbrev own : CreationTask → Bool
  own = has_id u.id

  own_row : find own db.tasks ≡ some t
  own_row = rw keeps.same_id (find-id p db.tasks t sound.distinct found)

  pub save-IsSound : IsSound (save now u db).tasks (save now u db).next_id
  unfolding save
  save-IsSound =
      let w = All-find IsWell own db.tasks t sound.rows own_row in
      let v = keeps.well w in
      record {
        rows = All-put IsWell own _ db.tasks sound.rows (ground arith);
        distinct = put-DistinctIds own t _ db.tasks own_row keeps.same_id sound.distinct;
        old =
            All-put (IsOld db.next_id) own _ db.tasks sound.old
              (rw keeps.same_id (All-find (IsOld db.next_id) own db.tasks t sound.old own_row));
      }

  pub save-NoMoreSlots : NoMoreSlots (save now u db).tasks db.tasks
  unfolding save
  save-NoMoreSlots uuid = omega (
    arith,
    count-put own (in_slot_of uuid) (record u { updated_at = now }) db.tasks t own_row,
    weight-Keeps now uuid t u keeps,
  )

-- A transaction that keeps the table sound and gives no user a slot.
abbrev pub IsQuiet : Db → Db → Type 0
IsQuiet db db' =
    IsSound db.tasks db.next_id → IsSound db'.tasks db'.next_id × NoMoreSlots db'.tasks db.tasks

pub save-IsQuiet :
    (now : ℕ) (p : CreationTask → Bool) (t u : CreationTask) (db : Db)
    → find p db.tasks ≡ some t
    → Keeps t u
    → IsQuiet db (save now u db)
save-IsQuiet now p t u db f k s =
    (save-IsSound now p t u db f k s, save-NoMoreSlots now p t u db f k s)

pub IsQuiet-refl : (db : Db) → IsQuiet db db
IsQuiet-refl db s = (s, λ uuid. omega arith)
