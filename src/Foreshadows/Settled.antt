-- ===== src/Foreshadows/Settled.antt =====
-- What one pass over the foreshadows leaves, and the moves that it makes.
use ai_jin_shu.Common.{
  ℕ, ◌≡◌, refl, ◌∙◌, Bool, true, false, Option, List, [], ◌∷◌, ◌++◌, inl, inr, arith, Bool-cases,
}
use ai_jin_shu.Foreshadows.{
  Lifecycle, planned, planted, paid, stale, ForeshadowRow, TransitionResult, LifecycleGates,
  advance_row, in_book, advance_rows, advance_foreshadows,
}

-- A row that a pass has left is left as it is by a second pass at the same chapter.
advance_row-twice :
    (g : LifecycleGates) (chapter : ℕ) (r : ForeshadowRow)
    → advance_row g chapter (advance_row g chapter r).0 ≡ ((advance_row g chapter r).0, [])
unfolding advance_row
advance_row-twice g chapter r = ground arith

advance_row-in_book :
    (g : LifecycleGates) (chapter novel : ℕ) (version : Option ℕ) (r : ForeshadowRow)
    → in_book novel version (advance_row g chapter r).0 ≡ in_book novel version r
unfolding advance_row
advance_row-in_book g chapter novel version r = ground arith

advance_rows-in :
    (g : LifecycleGates) (chapter novel : ℕ) (version : Option ℕ) (r : ForeshadowRow)
    (rs : List ForeshadowRow)
    → in_book novel version r ≡ true
    → advance_rows g chapter novel version (r ∷ rs) ≡ (
      (advance_row g chapter r).0 ∷ (advance_rows g chapter novel version rs).0,
      (advance_row g chapter r).1 ++ (advance_rows g chapter novel version rs).1,
    )
unfolding advance_rows
advance_rows-in g chapter novel version r rs e = rw e refl

advance_rows-out :
    (g : LifecycleGates) (chapter novel : ℕ) (version : Option ℕ) (r : ForeshadowRow)
    (rs : List ForeshadowRow)
    → in_book novel version r ≡ false
    → advance_rows g chapter novel version (r ∷ rs) ≡ (
      r ∷ (advance_rows g chapter novel version rs).0,
      (advance_rows g chapter novel version rs).1,
    )
unfolding advance_rows
advance_rows-out g chapter novel version r rs e = rw e refl

advance_rows-twice :
    (g : LifecycleGates) (chapter novel : ℕ) (version : Option ℕ) (rows : List ForeshadowRow)
    → advance_rows g chapter novel version (advance_rows g chapter novel version rows).0
      ≡ ((advance_rows g chapter novel version rows).0, [])
advance_rows-twice g chapter novel version [] = unfold advance_rows in refl
advance_rows-twice g chapter novel version (r ∷ rs) = elim (Bool-cases (in_book novel version r)) [
  | inl e ↦ rw (advance_rows-in g chapter novel version r rs e) (
      rw
        (advance_rows-in g chapter novel version (advance_row g chapter r).0
          (advance_rows g chapter novel version rs).0
          (advance_row-in_book g chapter novel version r ∙ e))
        (rw (advance_row-twice g chapter r)
          (rw (advance_rows-twice g chapter novel version rs) refl)))
  | inr e ↦ rw (advance_rows-out g chapter novel version r rs e) (
      rw (advance_rows-out g chapter novel version r (advance_rows g chapter novel version rs).0 e)
        (rw (advance_rows-twice g chapter novel version rs) refl))
]

-- Running the pass again at the same chapter changes no row and reports no transition, so a retry of
-- the chapter reports each transition once.
pub advance_foreshadows-twice :
    (enabled : Bool) (g : LifecycleGates) (chapter novel : ℕ) (version : Option ℕ)
    (rows : List ForeshadowRow)
    → advance_foreshadows enabled g chapter novel version
        (advance_foreshadows enabled g chapter novel version rows).0
      ≡ ((advance_foreshadows enabled g chapter novel version rows).0, [])
unfolding advance_foreshadows
advance_foreshadows-twice false g chapter novel version rows = refl
advance_foreshadows-twice true g chapter novel version rows =
    advance_rows-twice g chapter novel version rows

-- The moves of the life cycle: `paid`, `stale` and an unknown state are final.
abbrev pub Move : Lifecycle → Lifecycle → Type 0
Move planned planted = Unit {0}
Move planted paid = Unit {0}
Move planted stale = Unit {0}
Move a b = true ≡ false

-- The transitions lead from one state to another, each by a move.
abbrev pub Leads : Lifecycle → List TransitionResult → Lifecycle → Type 0
Leads a [] b = a ≡ b
Leads a (t ∷ ts) b = (t.from_state ≡ a) × Move a t.to_state × Leads t.to_state ts b

-- The transitions that are reported for a row lead from its old state to its new one by moves of
-- the life cycle: planned to planted, planted to paid, planted to stale.
pub advance_row-Leads :
    (g : LifecycleGates) (chapter : ℕ) (r : ForeshadowRow)
    → Leads r.lifecycle_state
        (advance_row g chapter r).1
        (advance_row g chapter r).0.lifecycle_state
unfolding advance_row
advance_row-Leads g chapter r = ground arith
