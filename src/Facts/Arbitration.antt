-- ===== src/Facts/Arbitration.antt =====
-- Which facts an arbitration retires.
use ai_jin_shu.Common.{
  ℕ, ◌≡◌, ◌∙◌, refl, ap, Bool, true, false, not, ◌&&◌, ◌||◌, Option, none, some, List, [], ◌∷◌,
  ◌==◌, any, select, arith, Bool-cases, inl, inr, or_else,
}
use ai_jin_shu.Common.Sorting.{any-sort_by}
use ai_jin_shu.Gates.{GateConfig}
use ai_jin_shu.Facts.{
  GapTest, StoryFact, FactKey, FactDecision, keep, supersede, warn, reject, ArbitrationOutcome,
  competes, precedes, ordered, others, or_tenth, superseding, by_model, decide_fact, arbitrate_fact,
}

unfoldable pub has_id : ℕ → List StoryFact → Bool
has_id n fs = any (λ f. f.id == n) fs

unfoldable pub retires : ArbitrationOutcome → ℕ → Bool
retires o n = any (λ i. i == n) o.superseded_ids

abbrev pub is_supersede : FactDecision → Bool
is_supersede supersede = true
is_supersede d = false

abbrev pub is_new : ℕ → Option ℕ → Bool
is_new n none = false
is_new n (some i) = i == n

module _ (n : ℕ) where
  has_id-ordered : (fs : List StoryFact) → has_id n (ordered fs) ≡ has_id n fs
  unfolding has_id
  has_id-ordered = any-sort_by precedes (λ f. f.id == n)

  member-others :
      (l : ℕ) (fs : List StoryFact)
      → any (λ i. i == n) (others l fs) ≡ (has_id n fs && not (l == n))
  unfolding has_id others
  member-others l [] = refl
  member-others l (f ∷ fs) = ground (arith, member-others l fs)

  retires-superseding :
      (l c : StoryFact) (rest : List StoryFact)
      → retires (superseding l c rest) n ≡ (has_id n (l ∷ c ∷ rest) && not (l.id == n))
  unfolding retires has_id
  retires-superseding l c rest =
      member-others l.id (c ∷ rest) ∙ absorb (l.id == n) (has_id n (c ∷ rest))
    where
      absorb : (a b : Bool) → (b && not a) ≡ ((a || b) && not a)
      absorb a b = ground arith

  by_model-retires :
      (answer : Option FactDecision) (l c : StoryFact) (rest : List StoryFact)
      → let o = by_model answer l c rest in
        retires o n
        ≡ (is_supersede o.decision && has_id n (l ∷ c ∷ rest) && not (is_new n o.new_id))
  by_model-retires (some supersede) l c rest = retires-superseding l c rest
  by_model-retires (some reject) l c rest = unfold retires in refl
  by_model-retires (some keep) l c rest = unfold retires in refl
  by_model-retires (some warn) l c rest = unfold retires in refl
  by_model-retires none l c rest = unfold retires in refl

  decide_fact-retires :
      (is_wide : GapTest) (gate : GateConfig) (answer : Option FactDecision) (rows : List StoryFact)
      → let o = decide_fact is_wide gate answer rows in
        retires o n ≡ (is_supersede o.decision && has_id n rows && not (is_new n o.new_id))
  unfolding retires
  decide_fact-retires is_wide gate answer [] = refl
  decide_fact-retires is_wide gate answer (f ∷ []) = refl
  decide_fact-retires is_wide gate answer (l ∷ c ∷ rest) =
      elim (Bool-cases
        (is_wide (or_else l.confidence 0) (or_else c.confidence 0) (or_tenth gate.threshold))) [
          | inl e ↦ rw e (retires-superseding l c rest)
          | inr e ↦ rw e (by_model-retires answer l c rest)
        ]

  -- An arbitration that decides to supersede retires each of the facts that compete for the key, but
  -- the one that it lets stand; any other decision retires no fact.
  pub arbitrate_fact-retires :
      (is_wide : GapTest) (gate : GateConfig) (answer : Option FactDecision) (k : FactKey)
      (facts : List StoryFact)
      → let o = arbitrate_fact is_wide gate answer k facts in
        retires o n ≡ (
          is_supersede o.decision
          && has_id n (select (competes k) facts)
          && not (is_new n o.new_id))
  unfolding arbitrate_fact
  arbitrate_fact-retires is_wide gate answer k facts =
      let rows = select (competes k) facts in
      let o = decide_fact is_wide gate answer (ordered rows) in
      decide_fact-retires is_wide gate answer (ordered rows)
      ∙ ap (λ b. is_supersede o.decision && b && not (is_new n o.new_id)) (has_id-ordered rows)
