-- ===== src/Generation/Plan.antt =====
-- app/services/generation/segment_plan.py: the plan of a segment that a retry restores. An outline
-- is read by its chapter number only.
pub mod Coverage
use ai_jin_shu.Common.{
  ℕ, zero, suc, ◌+◌, ◌-◌, max, Bool, true, false, not, ◌&&◌, ◌||◌, Option, none, some, List, [],
  ◌∷◌, ltb, leb, ◌==◌, any, all, if◌then◌else◌,
}
use ai_jin_shu.Common.Sorting.{sort_by}

pub data PlanKind : Type 0 where
  normal volume_replan bridge tail_rewrite : PlanKind

pub record SegmentPlan : Type 0 where
  pub start_chapter : ℕ
  pub end_chapter : ℕ
  pub volume_no : ℕ
  pub plan_kind : PlanKind
  pub outlines : List ℕ

-- `n in xs`
abbrev pub member : ℕ → List ℕ → Bool
member n xs = any (λ m. m == n) xs

-- The loop of `build_segment_plan`: the outlines of the range, the first one of each chapter.
unfoldable pub normalized : ℕ → ℕ → List ℕ → List ℕ → List ℕ
normalized start stop seen [] = []
normalized start stop seen (n ∷ ns) =
    let skip = ltb n start || ltb stop n || member n seen in
    let rest = normalized start stop (if skip then seen else n ∷ seen) ns in
    if skip then rest else n ∷ rest

-- `list.sort` by the chapter number
abbrev pub sorted : List ℕ → List ℕ
sorted ns = sort_by leb ns

-- `build_segment_plan`
unfoldable pub build_segment_plan : ℕ → ℕ → ℕ → List ℕ → PlanKind → SegmentPlan
unfolding normalized
build_segment_plan start stop volume outlines kind = record {
  start_chapter = start;
  end_chapter = stop;
  volume_no = max 1 volume;
  plan_kind = kind;
  outlines = sorted (normalized start stop [] outlines);
}

-- `range(start, start + n)`
abbrev pub range : ℕ → ℕ → List ℕ
range start zero = []
range start (suc n) = start ∷ range (suc start) n

-- `n` is one of the `available` chapters, whose numbers are positive.
abbrev pub available : List ℕ → ℕ → Bool
available outlines n = ltb 0 n && member n outlines

-- `segment_plan_covers_range`
unfoldable pub segment_plan_covers_range : Option SegmentPlan → ℕ → ℕ → Bool
segment_plan_covers_range none start stop = false
segment_plan_covers_range (some p) start stop =
    (p.start_chapter == start)
    && (p.end_chapter == stop)
    && all (available p.outlines) (range start (suc stop - start))
