-- ===== src/Tests/Naming.antt =====
-- Runs of the search for aliases and of their registration.
use ai_jin_shu.Common.{
  ok, ℕ, ◌≡◌, refl, true, List, [], ◌∷◌, ◌==◌, String, All, all, select, map, ◌++◌, Option, none,
  some,
}
use ai_jin_shu.Common.Int.{pos}
use ai_jin_shu.Common.Sorting.{sort_by, insert_by}
use ai_jin_shu.Aliases.{AliasRegistry, resolve_aliases, scan_rows, scan_alias, begins_with}
use ai_jin_shu.Aliases.Apart.{AllApart, resolve_aliases-AllApart}
use ai_jin_shu.Aliases.Genuine.{StandsIn, resolve_aliases-StandsIn}
use ai_jin_shu.Aliases.Taken.{is_covered}
use ai_jin_shu.Aliases.Longest.{resolve_aliases-covers}
use ai_jin_shu.Aliases.Register.{
  AliasEntry, Outside, AliasItem, bulk_register, write_new, flush_all, add_each, collect,
  payload_of,
}
use ai_jin_shu.Aliases.Singles.{all_fit, register_all, bulk_register-register_all}

abbrev named_row : ℕ → String → AliasRegistry
named_row i a = record {
  id = i;
  novel_version_id = 1;
  character_key = "li";
  alias = a;
  alias_type = "surface";
  priority = pos 0;
}

abbrev names : List AliasRegistry
names = named_row 1 "Li" ∷ named_row 2 "Li Bai" ∷ named_row 3 "Bai" ∷ []

abbrev sentence : String
sentence = "Li Bai met Bai"

longest_first : map (λ m. m.alias) (resolve_aliases true sentence 1 names) ≡ "Li Bai" ∷ "Bai" ∷ []
unfolding resolve_aliases scan_rows scan_alias begins_with sort_by insert_by
longest_first = refl

resolve_aliases-AllApart_example : AllApart (resolve_aliases true sentence 1 names)
resolve_aliases-AllApart_example = resolve_aliases-AllApart true sentence 1 names

resolve_aliases-StandsIn_example : All (StandsIn sentence) (resolve_aliases true sentence 1 names)
resolve_aliases-StandsIn_example = resolve_aliases-StandsIn true sentence 1 names

resolve_aliases-covers_example :
    all
      (is_covered sentence (resolve_aliases true sentence 1 names))
      (select (λ r. r.novel_version_id == 1) names)
    ≡ true
resolve_aliases-covers_example = resolve_aliases-covers sentence 1 names

abbrev registry : Outside
registry = record { strip = λ s. s; has_version = λ v. v == 1 }

abbrev item : String → String → Option AliasItem
item key alias =
    some
      (record { character_key = some key; alias = some alias; alias_type = none; priority = none })

abbrev items : List (Option AliasItem)
items = item "li" "Li" ∷ none ∷ item "bai" "" ∷ item "li" "Li Bai" ∷ item "bai" "Li" ∷ []

items_fit : all_fit registry items ≡ true
unfolding payload_of
items_fit = refl

abbrev entry : String → AliasEntry
entry a = record {
  novel_version_id = 1;
  character_key = "li";
  alias = a;
  alias_type = "surface";
  priority = pos 0;
}

-- Another process has added the second alias after the query.
abbrev late : List AliasEntry
late = entry "Li Bai" ∷ []

raced : bulk_register registry 1 items [] late ≡ ok (1, late ++ entry "Li" ∷ [])
unfolding bulk_register write_new flush_all add_each collect payload_of
raced = refl

bulk_register-register_all_example :
    (written : ℕ) × (after : List AliasEntry) × (bulk_register registry 1 items [] late
      ≡ ok (written, after))
    × (register_all registry 1 items late ≡ ok after)
bulk_register-register_all_example = bulk_register-register_all registry 1 items [] late items_fit
