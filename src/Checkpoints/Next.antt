-- ===== src/Checkpoints/Next.antt =====
-- `infer_next_unit` of app/services/task_runtime/checkpoint_repo.py.
use ai_jin_shu.Common.{
  ℕ, zero, suc, ◌+◌, ◌-◌, ◌≤◌, ◌≡◌, true, false, not, ◌&&◌, ◌||◌, List, ltb, leb, ◌==◌, arith,
  Bool-cases, inl, inr,
}
use ai_jin_shu.Checkpoints.{elem, scan, infer_next_unit}

-- `u` is the first unit of the range, with the unit `last` behind it, that is not completed.
pub record IsNext (start last u k : ℕ) (done : List ℕ) : Type 0 where
  pub above : start ≤ u
  pub within : u ≤ last
  pub missing : (u == last || not (elem u done)) ≡ true
  pub first : (leb start k && ltb k u && not (elem k done)) ≡ false

scan-IsNext :
    (count start last k : ℕ) (done : List ℕ)
    → start + count ≡ last
    → IsNext start last (scan count start last done) k done
unfolding scan
scan-IsNext zero start last k done h = ground arith
scan-IsNext (suc count) start last k done h = elim (Bool-cases (elem start done)) [
  | inr e ↦ ground arith
  | inl e ↦ let i = scan-IsNext count (suc start) last k done (omega arith) in ground (arith, i)
]

-- The unit that a resumed task goes on with lies in the range or right behind it, is not completed
-- unless it lies behind the range, and every unit `k` of the range before it is completed.
pub infer_next_unit-IsNext :
    (unit_from unit_to k : ℕ) (done : List ℕ)
    → unit_from ≤ suc unit_to
    → IsNext unit_from (suc unit_to) (infer_next_unit unit_from unit_to done) k done
unfolding infer_next_unit
infer_next_unit-IsNext unit_from unit_to k done h =
    scan-IsNext (suc unit_to - unit_from) unit_from (suc unit_to) k done (omega arith)
