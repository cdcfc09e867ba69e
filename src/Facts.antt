-- ===== src/Facts.antt =====
-- app/services/memory/fact_arbitrator.py: which of the active facts of one kind about an entity
-- stands. A confidence is in ten thousandths; the answer of the model and the test on the
-- gap between two of them are arguments.
pub mod Arbitration
pub mod Leader
use ai_jin_shu.Common.{
  ℕ, ◌+◌, Bool, true, false, not, ◌&&◌, ◌||◌, Option, none, some, String, List, [], ◌∷◌, str_eq,
  ltb, leb, ◌==◌, any, select, or_else, if◌then◌else◌,
}
use ai_jin_shu.Common.Sorting.{sort_by}
use ai_jin_shu.Gates.{GateConfig}

-- StoryFact
pub record StoryFact : Type 0 where
  pub id : ℕ
  pub novel_id : ℕ
  pub novel_version_id : Option ℕ
  pub entity_id : ℕ
  pub fact_type : String
  pub source_chapter : Option ℕ
  pub confidence : Option ℕ
  pub is_active : Option ℕ

pub data FactDecision : Type 0 where
  keep supersede warn reject : FactDecision

-- FactArbitrationDecision, without its text, and the ids of ArbitrationOutcome.
pub record ArbitrationOutcome : Type 0 where
  pub decision : FactDecision
  pub new_id : Option ℕ
  pub superseded_id : Option ℕ
  pub superseded_ids : List ℕ

-- The key of one arbitration.
pub record FactKey : Type 0 where
  pub novel_id : ℕ
  pub novel_version_id : Option ℕ
  pub entity_id : ℕ
  pub fact_type : String

abbrev pub same_version : Option ℕ → Option ℕ → Bool
same_version none none = true
same_version (some a) (some b) = a == b
same_version a b = false

-- `is_active IS NULL OR is_active = 1`
abbrev pub active : Option ℕ → Bool
active none = true
active (some n) = n == 1

-- The filter of the query.
abbrev pub competes : FactKey → StoryFact → Bool
competes k f =
    (f.novel_id == k.novel_id)
    && same_version f.novel_version_id k.novel_version_id
    && (f.entity_id == k.entity_id)
    && str_eq f.fact_type k.fact_type
    && active f.is_active

-- `order_by(source_chapter.desc().nullsfirst(), id.desc())`
abbrev pub chapter_first : Option ℕ → Option ℕ → Bool → Bool
chapter_first none none tie = tie
chapter_first none (some b) tie = true
chapter_first (some a) none tie = false
chapter_first (some a) (some b) tie = ltb b a || ((a == b) && tie)

abbrev pub precedes : StoryFact → StoryFact → Bool
precedes f g = chapter_first f.source_chapter g.source_chapter (leb g.id f.id)

abbrev pub ordered : List StoryFact → List StoryFact
ordered fs = sort_by precedes fs

abbrev pub or_tenth : Option ℕ → ℕ
or_tenth none = 1000
or_tenth (some n) = if n == 0 then 1000 else n

-- `[r.id for r in rows[1:] if r.id != leader.id]`
unfoldable pub others : ℕ → List StoryFact → List ℕ
others leader [] = []
others leader (f ∷ fs) = let rest = others leader fs in if f.id == leader then rest else f.id ∷ rest

abbrev pub settled : FactDecision → ℕ → ArbitrationOutcome
settled d leader = record {
  decision = d;
  new_id = some leader;
  superseded_id = none;
  superseded_ids = [];
}

abbrev pub superseding : StoryFact → StoryFact → List StoryFact → ArbitrationOutcome
superseding leader challenger rest = record {
  decision = supersede;
  new_id = some leader.id;
  superseded_id = some challenger.id;
  superseded_ids = others leader.id (challenger ∷ rest);
}

-- What follows from the model's answer; `keep` and no answer are a warning.
abbrev pub by_model :
    Option FactDecision → StoryFact → StoryFact → List StoryFact → ArbitrationOutcome
by_model (some supersede) l c rest = superseding l c rest
by_model (some reject) l c rest = settled reject l.id
by_model d l c rest = settled warn l.id

-- The test `leader_conf - challenger_conf >= min_gap`, which Python rounds as it does floats.
abbrev pub GapTest : Type 0
GapTest = ℕ → ℕ → ℕ → Bool

-- The decision on the rows in their order.
abbrev pub decide_fact :
    GapTest → GateConfig → Option FactDecision → List StoryFact → ArbitrationOutcome
decide_fact is_wide gate answer [] = record {
  decision = keep;
  new_id = none;
  superseded_id = none;
  superseded_ids = [];
}
decide_fact is_wide gate answer (f ∷ []) = settled keep f.id
decide_fact is_wide gate answer (leader ∷ challenger ∷ rest) =
    if is_wide (or_else leader.confidence 0) (or_else challenger.confidence 0)
      (or_tenth gate.threshold)
    then superseding leader challenger rest
    else by_model answer leader challenger rest

-- `arbitrate_fact`
unfoldable pub arbitrate_fact :
    GapTest → GateConfig → Option FactDecision → FactKey → List StoryFact → ArbitrationOutcome
unfolding others
arbitrate_fact is_wide gate answer k facts =
    decide_fact is_wide gate answer (ordered (select (competes k) facts))
