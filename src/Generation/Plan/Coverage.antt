-- ===== src/Generation/Plan/Coverage.antt =====
-- What a built plan contains, and when it is found to cover its range.
use ai_jin_shu.Common.{
  ℕ, zero, suc, ◌+◌, ◌-◌, ◌≤◌, ◌<◌, ◌≡◌, refl, Bool, not, ◌==◌, ◌&&◌, some, List, [], ◌∷◌, leb, all,
  arith,
}
use ai_jin_shu.Common.Sorting.{any-sort_by}
use ai_jin_shu.Generation.Plan.{
  PlanKind, member, normalized, sorted, build_segment_plan, range, available,
  segment_plan_covers_range,
}

pub member-sorted : (k : ℕ) (ns : List ℕ) → member k (sorted ns) ≡ member k ns
member-sorted k = any-sort_by leb (λ m. m == k)

-- A number of the range that was not seen is kept exactly when it is among the outlines.
pub member-normalized :
    (k a b : ℕ) (seen ns : List ℕ)
    → member k (normalized a b seen ns) ≡ (not (member k seen) && leb a k && leb k b && member k ns)
unfolding normalized
member-normalized k a b seen [] = ground arith
member-normalized k a b seen (n ∷ ns) =
    ground (arith, member-normalized k a b seen ns, member-normalized k a b (n ∷ seen) ns)

-- Two tests that agree on a range.
pub all-range :
    (p q : ℕ → Bool) (a k : ℕ)
    → ((n : ℕ) → a ≤ n → n < a + k → p n ≡ q n)
    → all p (range a k) ≡ all q (range a k)
all-range p q a zero h = refl
all-range p q a (suc k) h =
    let rest = all-range p q (suc a) k (λ n l u. h n (omega arith) (omega arith)) in
    ground (arith, rest, h a (omega arith) (omega arith))

-- The plan that is built for a range starting at chapter 1 or later is found to cover that range
-- exactly when the outlines it is built from have every chapter of it: neither the filter, nor the
-- dropped repetitions, nor the sorting loses a chapter or makes one up.
pub build_segment_plan-covers :
    (a b volume : ℕ) (outlines : List ℕ) (kind : PlanKind)
    → 1 ≤ a
    → segment_plan_covers_range (some (build_segment_plan a b volume outlines kind)) a b
      ≡ all (λ n. member n outlines) (range a (suc b - a))
unfolding build_segment_plan segment_plan_covers_range
build_segment_plan-covers a b volume outlines kind h =
    let agree : (n : ℕ)
        → a ≤ n
        → n < a + (suc b - a)
        → available (sorted (normalized a b [] outlines)) n ≡ member n outlines =
      λ n l u. ground (
        arith,
        member-sorted n (normalized a b [] outlines),
        member-normalized n a b [] outlines,
      ) in
    ground (
      arith,
      all-range (available (sorted (normalized a b [] outlines))) (λ n. member n outlines) a
          (suc b - a) agree,
    )
