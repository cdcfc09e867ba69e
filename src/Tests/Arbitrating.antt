-- ===== src/Tests/Arbitrating.antt =====
-- Runs of the arbitration of facts.
use ai_jin_shu.Common.Sorting.{sort_by, insert_by}
use ai_jin_shu.Common.{ℕ, ◌+◌, leb, ◌≡◌, refl, none, some, not, ◌&&◌, List, [], ◌∷◌, select}
use ai_jin_shu.Gates.{default_gate}
use ai_jin_shu.Facts.{GapTest, StoryFact, FactKey, competes, arbitrate_fact}
use ai_jin_shu.Facts.Arbitration.{has_id, retires, is_supersede, is_new, arbitrate_fact-retires}

abbrev residence : FactKey
residence = record { novel_id = 7; novel_version_id = some 1; entity_id = 3; fact_type = "home" }

-- A fact with this id, chapter and confidence.
abbrev fact : ℕ → ℕ → ℕ → StoryFact
fact i chapter confidence = record {
  id = i;
  novel_id = 7;
  novel_version_id = some 1;
  entity_id = 3;
  fact_type = "home";
  source_chapter = some chapter;
  confidence = some confidence;
  is_active = some 1;
}

abbrev wide : GapTest
wide leader challenger gap = leb (challenger + gap) leader

abbrev homes : List StoryFact
homes = fact 1 2 5000 ∷ fact 2 9 9000 ∷ fact 3 4 6000 ∷ []

arbitrate_fact-retires_example :
    retires (arbitrate_fact wide default_gate none residence homes) 3 ≡ (
      is_supersede (arbitrate_fact wide default_gate none residence homes).decision
      && has_id 3 (select (competes residence) homes)
      && not (is_new 3 (arbitrate_fact wide default_gate none residence homes).new_id))
arbitrate_fact-retires_example = arbitrate_fact-retires 3 wide default_gate none residence homes

retired : (arbitrate_fact wide default_gate none residence homes).superseded_ids ≡ (3 ∷ 1 ∷ [])
unfolding arbitrate_fact sort_by insert_by
retired = refl
