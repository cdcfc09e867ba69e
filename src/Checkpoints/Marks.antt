-- ===== src/Checkpoints/Marks.antt =====
-- `mark_unit_completed` of app/services/task_runtime/checkpoint_repo.py.
use ai_jin_shu.Common.{
  ℕ, suc, ◌≤◌, ◌<◌, ltb, leb, not, ◌≡◌, refl, Bool, true, false, ◌&&◌, ◌||◌, Option, none, some,
  String, List, [], ◌∷◌, ◌++◌, eq_refl, ◌==◌, ==_iff, arith, Bool-cases, Option-cases, inl, inr,
  if◌then◌else◌,
}
use ai_jin_shu.Common.Table.{find, put, find-passes}
use ai_jin_shu.Json.{Fields}
use ai_jin_shu.Checkpoints.{
  CreationTaskCheckpoint, Scope, in_scope, same_partition, is_unit, is_done, completed_row, new_row,
  mark_unit_completed, get_completed_units, elem, infer_next_unit,
}
use ai_jin_shu.Checkpoints.Next.{infer_next_unit-IsNext}

same_partition_refl : (p : Option String) → same_partition p p ≡ true
same_partition_refl none = refl
same_partition_refl (some s) = eq_refl s

new_row-in_scope :
    (now : ℕ) (s : Scope) (n : ℕ) (p : Option Fields) → in_scope s (new_row now s n p) ≡ true
new_row-in_scope now s n p = ground (arith, same_partition_refl s.partition, eq_refl s.unit_type)

completed-append :
    (now : ℕ) (s : Scope) (n j : ℕ) (p : Option Fields) (rows : List CreationTaskCheckpoint)
    → elem j (get_completed_units s (rows ++ new_row now s n p ∷ []))
      ≡ (n == j || elem j (get_completed_units s rows))
unfolding get_completed_units
completed-append now s n j p [] = rw (new_row-in_scope now s n p) (ground arith)
completed-append now s n j p (r ∷ rows) = ground (arith, completed-append now s n j p rows)

unit_parts :
    (s : Scope) (n : ℕ) (r : CreationTaskCheckpoint)
    → is_unit s n r ≡ true
    → (in_scope s r ≡ true) × (r.unit_no ≡ n)
unit_parts s n r h = elim (Bool-cases (in_scope s r)) [
  | inl e ↦ (e, (==_iff r.unit_no n).0 (rw e at h))
  | inr e ↦ absurd (ground (arith, h, e))
]

elem-cons :
    (b : Bool) (m n j : ℕ) (xs ys : List ℕ)
    → elem j xs ≡ (n == j || elem j ys)
    → elem j (if b then m ∷ xs else xs) ≡ (n == j || elem j (if b then m ∷ ys else ys))
elem-cons b m n j xs ys h = ground arith

elem-again :
    (b : Bool) (m n j : ℕ) (xs : List ℕ)
    → m ≡ n
    → (n == j || elem j xs) ≡ (n == j || elem j (if b then m ∷ xs else xs))
elem-again b m n j xs h = ground arith

completed-put :
    (now : ℕ) (s : Scope) (n j : ℕ) (p : Option Fields) (rows : List CreationTaskCheckpoint)
    (a : CreationTaskCheckpoint)
    → is_unit s n a ≡ true
    → find (is_unit s n) rows ≡ some a
    → elem j (get_completed_units s (put (is_unit s n) (completed_row now p a) rows))
      ≡ (n == j || elem j (get_completed_units s rows))
unfolding get_completed_units
completed-put now s n j p [] a u h = absurd (ground arith)
completed-put now s n j p (r ∷ rows) a u h = elim (Bool-cases (is_unit s n r)) [
  | inr e ↦
      let ih = completed-put now s n j p rows a u (rw e at h) in
      rw e (elem-cons (in_scope s r && is_done r) r.unit_no n j _ _ ih)
  | inl e ↦
      let (i, k) = unit_parts s n a u in
      rw e (
        rw (i, k)
          (elem-again (in_scope s r && is_done r) r.unit_no n j (get_completed_units s rows)
            (unit_parts s n r e).1))
]

-- After a unit is marked, the completed units of its task, type and partition are the old ones and
-- that unit, whether the row was new, completed already, or skipped before.
pub mark_unit_completed-adds :
    (now : ℕ) (s : Scope) (n j : ℕ) (p : Option Fields) (rows : List CreationTaskCheckpoint)
    → elem j (get_completed_units s (mark_unit_completed now s n p rows))
      ≡ (n == j || elem j (get_completed_units s rows))
unfolding mark_unit_completed
mark_unit_completed-adds now s n j p rows = elim (Option-cases (find (is_unit s n) rows)) [
  | inl e ↦ rw (mark_unit_completed, e) (completed-append now s n j p rows)
  | inr (a, e) ↦
      rw (mark_unit_completed, e)
        (completed-put now s n j p rows a (find-passes (is_unit s n) rows a e) e)
]

later :
    (start last u v : ℕ) (b c : Bool)
    → (leb start v && ltb v u && not b) ≡ false
    → start ≤ v
    → (v == last || not c) ≡ true
    → c ≡ (u == v || b)
    → u < last
    → u < v
later start last u v b c h a m e l = ground arith

-- As long as the inferred unit lies in the range, marking it makes the next inferred unit a later
-- one.
pub resume-advances :
    (now : ℕ) (s : Scope) (p : Option Fields) (unit_from unit_to : ℕ)
    (rows : List CreationTaskCheckpoint)
    → let u = infer_next_unit unit_from unit_to (get_completed_units s rows) in
      unit_from ≤ suc unit_to
      → u ≤ unit_to
      → u
        < infer_next_unit unit_from unit_to
            (get_completed_units s (mark_unit_completed now s u p rows))
resume-advances now s p unit_from unit_to rows h le =
    let old = get_completed_units s rows in
    let u = infer_next_unit unit_from unit_to old in
    let new = get_completed_units s (mark_unit_completed now s u p rows) in
    let v = infer_next_unit unit_from unit_to new in
    later unit_from (suc unit_to) u v (elem v old) (elem v new)
      (infer_next_unit-IsNext unit_from unit_to v old h).first
      (infer_next_unit-IsNext unit_from unit_to v new h).above
      (infer_next_unit-IsNext unit_from unit_to v new h).missing
      (mark_unit_completed-adds now s u v p rows) (omega arith)
