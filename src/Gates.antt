-- ===== src/Gates.antt =====
-- app/core/gates.py: the gate that applies to a novel, by category and name. A parsed file is what
-- `_read_category` returns; a category without one, or with one that does not parse, has none.
use ai_jin_shu.Common.{ℕ, Option, none, some, String, List, [], str_eq, or_else}
use ai_jin_shu.Common.Table.{find}

pub data GateMode : Type 0 where
  strict warn off : GateMode

-- `threshold` is in ten thousandths; `metric_label` is left out.
pub record GateConfig : Type 0 where
  pub mode : GateMode
  pub threshold : Option ℕ
  pub max_outline_revise : ℕ
  pub downgrade_to : Option String

abbrev pub default_gate : GateConfig
default_gate = record { mode = warn; threshold = none; max_outline_revise = 0; downgrade_to = none }

-- An entry of a dict of gates.
pub record NamedGate : Type 0 where
  pub name : String
  pub gate : GateConfig

-- An entry of `overrides["per_novel"]`, under the text of the novel's id.
pub record NovelGates : Type 0 where
  pub novel : String
  pub gates : List NamedGate

pub record GateFile : Type 0 where
  pub gates : List NamedGate
  pub per_novel : List NovelGates

abbrev pub lookup : String → List NamedGate → Option GateConfig
lookup k gs = elim (find (λ g. str_eq g.name k) gs) [ none ↦ none | some g ↦ some g.gate ]

abbrev pub overrides_of : String → GateFile → List NamedGate
overrides_of novel f = elim (find (λ n. str_eq n.novel novel) f.per_novel) [
  | none ↦ []
  | some n ↦ n.gates
]

-- `get_gate`, on what `_read_category` returned.
unfoldable pub get_gate : Option GateFile → String → Option String → GateConfig
get_gate none name novel = default_gate
get_gate (some f) name none = or_else (lookup name f.gates) default_gate
get_gate (some f) name (some novel) =
    or_else (lookup name (overrides_of novel f)) (or_else (lookup name f.gates) default_gate)
