-- ===== src/Foreshadows.antt =====
-- app/services/memory/foreshadow_lifecycle.py: the life cycle of the foreshadows of a book. A
-- confidence is in ten thousandths, the threshold of the overdue gate in whole chapters; a chapter
-- that is missing is 0, as the source's tests read it.
pub mod Settled
use ai_jin_shu.Facts.{same_version}
use ai_jin_shu.Common.{
  ℕ, ◌-◌, Bool, true, false, not, ◌&&◌, Option, none, some, String, List, [], ◌∷◌, ◌++◌, leb, ◌==◌,
  if◌then◌else◌,
}

-- `lifecycle_state` after `strip` and `lower`; a missing one is `planned`.
pub data Lifecycle : Type 0 where
  planned planted paid stale : Lifecycle
  unknown : String → Lifecycle

-- The columns of StoryForeshadow that the function reads.
pub record ForeshadowRow : Type 0 where
  pub foreshadow_id : String
  pub novel_id : ℕ
  pub novel_version_id : Option ℕ
  pub lifecycle_state : Lifecycle
  pub plant_chapter : ℕ
  pub payoff_chapter : ℕ
  pub match_confidence : ℕ

-- TransitionResult, without the text of the reason.
pub record TransitionResult : Type 0 where
  pub foreshadow_id : String
  pub from_state : Lifecycle
  pub to_state : Lifecycle

-- The thresholds of the two gates, their defaults put in.
pub record LifecycleGates : Type 0 where
  pub payoff_threshold : ℕ
  pub overdue_threshold : ℕ

abbrev pub is_set : ℕ → Bool
is_set n = not (n == 0)

abbrev pub is_planned : Lifecycle → Bool
is_planned planned = true
is_planned s = false

abbrev pub is_planted : Lifecycle → Bool
is_planted planted = true
is_planted s = false

abbrev pub change : ForeshadowRow → Lifecycle → Lifecycle → TransitionResult
change r a b = record { foreshadow_id = r.foreshadow_id; from_state = a; to_state = b }

-- planned to planted
abbrev pub plants : ForeshadowRow → Bool
plants r = is_planned r.lifecycle_state && is_set r.plant_chapter

abbrev pub after_planting : ForeshadowRow → ForeshadowRow × List TransitionResult
after_planting r =
    if plants r
    then (record r { lifecycle_state = planted }, change r planned planted ∷ [])
    else (r, [])

-- planted to paid, else planted to stale
abbrev pub pays : LifecycleGates → ForeshadowRow → Bool
pays g r =
    is_planted r.lifecycle_state
    && is_set r.payoff_chapter
    && leb g.payoff_threshold r.match_confidence

abbrev pub goes_stale : LifecycleGates → ℕ → ForeshadowRow → Bool
goes_stale g chapter r =
    is_planted r.lifecycle_state
    && not (is_set r.payoff_chapter)
    && is_set r.plant_chapter
    && leb g.overdue_threshold (chapter - r.plant_chapter)

abbrev pub after_payoff : LifecycleGates → ℕ → ForeshadowRow → ForeshadowRow × List TransitionResult
after_payoff g chapter r =
    if pays g r
    then (record r { lifecycle_state = paid }, change r planted paid ∷ [])
    else if goes_stale g chapter r
    then (record r { lifecycle_state = stale }, change r planted stale ∷ [])
    else (r, [])

-- The body of the loop.
unfoldable pub advance_row :
    LifecycleGates → ℕ → ForeshadowRow → ForeshadowRow × List TransitionResult
advance_row g chapter r =
    let (planting, ts) = after_planting r in
    let (paying, us) = after_payoff g chapter planting in (paying, ts ++ us)

abbrev pub in_book : ℕ → Option ℕ → ForeshadowRow → Bool
in_book novel version r = (r.novel_id == novel) && same_version r.novel_version_id version

unfoldable pub advance_rows :
    LifecycleGates
    → ℕ
    → ℕ
    → Option ℕ
    → List ForeshadowRow
    → List ForeshadowRow × List TransitionResult
unfolding advance_row
advance_rows g chapter novel version [] = ([], [])
advance_rows g chapter novel version (r ∷ rs) =
    let (rows, us) = advance_rows g chapter novel version rs in
    let (row, ts) = advance_row g chapter r in
    if in_book novel version r then (row ∷ rows, ts ++ us) else (r ∷ rows, us)

-- `advance_foreshadows`, with its flag and its gates.
unfoldable pub advance_foreshadows :
    Bool
    → LifecycleGates
    → ℕ
    → ℕ
    → Option ℕ
    → List ForeshadowRow
    → List ForeshadowRow × List TransitionResult
unfolding advance_rows
advance_foreshadows false g chapter novel version rows = (rows, [])
advance_foreshadows true g chapter novel version rows = advance_rows g chapter novel version rows
