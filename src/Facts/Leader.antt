-- ===== src/Facts/Leader.antt =====
-- Which fact an arbitration lets stand.
use ai_jin_shu.Common.{
  ◌≡◌, ◌⊎◌, inl, inr, refl, ap, ◌∙◌, true, false, Option, none, some, List, [], ◌∷◌, select, arith,
  Bool-cases, or_else, All,
}
use ai_jin_shu.Common.Sorting.{sort_by, insert_by}
use ai_jin_shu.Gates.{GateConfig}
use ai_jin_shu.Facts.{
  GapTest, StoryFact, FactKey, FactDecision, keep, supersede, warn, reject, competes, precedes,
  ordered, or_tenth, by_model, decide_fact, arbitrate_fact,
}

-- A fact without a chapter comes first, then the later chapter, then the greater id.
precedes_refl : (f : StoryFact) → precedes f f ≡ true
precedes_refl f = ground arith

precedes_total : (f g : StoryFact) → precedes f g ≡ false → precedes g f ≡ true
precedes_total f g h = ground arith

precedes_trans :
    (f g h : StoryFact) → precedes f g ≡ true → precedes g h ≡ true → precedes f h ≡ true
precedes_trans f g h a b = ground arith

abbrev pub Leads : StoryFact → List StoryFact → Type 0
Leads l fs = All (λ f. precedes l f ≡ true) fs

Leads-transfer :
    (f l : StoryFact) (fs : List StoryFact) → precedes f l ≡ true → Leads l fs → Leads f fs
Leads-transfer f l [] h g = tt
Leads-transfer f l (m ∷ fs) h g = (precedes_trans f l m h g.0, Leads-transfer f l fs h g.1)

-- The head of the ordered rows, when there is one.
ordered-Leads :
    (fs : List StoryFact)
    → ((fs ≡ []) × (ordered fs ≡ []))
      ⊎ ((l : StoryFact) × (rest : List StoryFact) × (ordered fs ≡ l ∷ rest) × Leads l fs)
unfolding sort_by insert_by
ordered-Leads [] = inl (refl, refl)
ordered-Leads (f ∷ fs) = elim (ordered-Leads fs) [
  | inl (e, o) ↦ inr (f, [], ap (insert_by precedes f) o, rw e (precedes_refl f, tt))
  | inr (l, rest, o, h) ↦ elim (Bool-cases (precedes f l)) [
    | inl e ↦ inr (
      f,
      l ∷ rest,
      ap (insert_by precedes f) o ∙ rw e refl,
      (precedes_refl f, Leads-transfer f l fs e h),
    )
    | inr e ↦ inr (
      l,
      insert_by precedes f rest,
      ap (insert_by precedes f) o ∙ rw e refl,
      (precedes_total f l e, h),
    )
  ]
]

decide_fact-new :
    (is_wide : GapTest) (gate : GateConfig) (answer : Option FactDecision) (l : StoryFact)
    (rest : List StoryFact)
    → (decide_fact is_wide gate answer (l ∷ rest)).new_id ≡ some l.id
decide_fact-new is_wide gate answer l [] = refl
decide_fact-new is_wide gate answer l (c ∷ rest) =
    elim (Bool-cases
      (is_wide (or_else l.confidence 0) (or_else c.confidence 0) (or_tenth gate.threshold))) [
        | inl e ↦ rw e refl
        | inr e ↦ rw e (by_model-new answer)
      ]
  where
    by_model-new : (a : Option FactDecision) → (by_model a l c rest).new_id ≡ some l.id
    by_model-new (some supersede) = refl
    by_model-new (some reject) = refl
    by_model-new (some keep) = refl
    by_model-new (some warn) = refl
    by_model-new none = refl

-- The fact that an arbitration names comes before all that compete: one without a chapter first,
-- then the latest chapter, then the greatest id. None is named exactly when none competes.
pub arbitrate_fact-Leads :
    (is_wide : GapTest) (gate : GateConfig) (answer : Option FactDecision) (k : FactKey)
    (facts : List StoryFact)
    → let rows = select (competes k) facts in
      ((rows ≡ []) × ((arbitrate_fact is_wide gate answer k facts).new_id ≡ none))
      ⊎ ((l : StoryFact) × ((arbitrate_fact is_wide gate answer k facts).new_id ≡ some l.id)
          × Leads l rows)
unfolding arbitrate_fact
arbitrate_fact-Leads is_wide gate answer k facts =
    elim (ordered-Leads (select (competes k) facts)) [
      | inl (e, o) ↦ inl (e, ap (λ rows. (decide_fact is_wide gate answer rows).new_id) o)
      | inr (l, rest, o, h) ↦ inr (
        l,
        ap (λ rows. (decide_fact is_wide gate answer rows).new_id) o
            ∙ decide_fact-new is_wide gate answer l rest,
        h,
      )
    ]
