-- ===== src/Aliases/Longest.antt =====
-- Every place at which an alias of app/services/memory/alias_registry.py stands is taken by a match that
-- is at least as long.
use Prim.Native.String.{String}
use ai_jin_shu.Common.{
  ℕ, ◌≤◌, ◌≡◌, refl, sym, subst, eq_iff, ◌∙◌, Bool, true, false, ◌&&◌, List, [], ◌∷◌, ◌==◌, str_eq,
  all, All, arith, Bool-cases, inl, inr, select,
}
use ai_jin_shu.Common.Sorting.{sort_by, all-sort_by, any-sort_by, IsSortedBy, sort_by-IsSortedBy}
use ai_jin_shu.Aliases.{
  AliasRegistry, AliasMatch, text_length, scan_alias, scan_rows, longer_first, earlier_first,
  by_priority, resolve_aliases,
}
use ai_jin_shu.Aliases.Taken.{
  takes, is_covered, AllLong, scan_alias-AllLong, scan_alias-all_taken, all_taken_mono,
  scan_rows-keeps_any,
}

-- The rows from the longest alias to the shortest.
abbrev IsLonger : AliasRegistry → AliasRegistry → Type 0
IsLonger a b = text_length b.alias ≤ text_length a.alias

abbrev Descending : List AliasRegistry → Type 0
Descending rs = IsSortedBy IsLonger rs

sort_by-Descending : (rs : List AliasRegistry) → Descending (sort_by longer_first rs)
sort_by-Descending =
    sort_by-IsSortedBy longer_first IsLonger (λ a b c h k. omega (arith, h, k))
      (λ a b h. ground arith) (λ a b h. ground arith)

nonempty-length : (alias : String) → str_eq alias "" ≡ false → 1 ≤ text_length alias
nonempty-length String.[] h = cc
nonempty-length (String.◌∷◌ c s) h = omega arith

-- The matches so far are as long as each alias that is left.
abbrev AllAbove : List AliasRegistry → List AliasMatch → Type 0
AllAbove rs found = All (λ r. AllLong (text_length r.alias) found) rs

scan_alias-AllAbove :
    (r : AliasRegistry) (text : String) (rs : List AliasRegistry) (found : List AliasMatch)
    → All (λ x. text_length x.alias ≤ text_length r.alias) rs
    → AllAbove rs found
    → AllAbove rs (scan_alias r text 0 found)
scan_alias-AllAbove r text [] found h k = tt
scan_alias-AllAbove r text (x ∷ xs) found h k = (
  scan_alias-AllLong (text_length x.alias) r text 0 found h.0 k.0,
  scan_alias-AllAbove r text xs found h.1 k.1,
)

scan_rows-skip :
    (r : AliasRegistry) (rs : List AliasRegistry) (text : String) (found : List AliasMatch)
    → str_eq r.alias "" ≡ true
    → scan_rows (r ∷ rs) text found ≡ scan_rows rs text found
unfolding scan_rows
scan_rows-skip r rs text found e = rw e refl

scan_rows-scan_alias :
    (r : AliasRegistry) (rs : List AliasRegistry) (text : String) (found : List AliasMatch)
    → str_eq r.alias "" ≡ false
    → scan_rows (r ∷ rs) text found ≡ scan_rows rs text (scan_alias r text 0 found)
unfolding scan_rows
scan_rows-scan_alias r rs text found e = rw e refl

scan_rows-covers :
    (rs : List AliasRegistry) (text : String) (found : List AliasMatch)
    → Descending rs
    → AllAbove rs found
    → all (is_covered text (scan_rows rs text found)) rs ≡ true
scan_rows-covers [] text found d h = refl
scan_rows-covers (r ∷ rs) text found d h = elim (Bool-cases (str_eq r.alias "")) [
  | inl e ↦
      subst (λ ms. (is_covered text ms r && all (is_covered text ms) rs) ≡ true)
        (sym (scan_rows-skip r rs text found e)) (rw e (scan_rows-covers rs text found d.1 h.1))
  | inr e ↦
      let more = scan_alias r text 0 found in
      subst (λ ms. (is_covered text ms r && all (is_covered text ms) rs) ≡ true)
        (sym (scan_rows-scan_alias r rs text found e))
        (rw e (
          rw
            (all_taken_mono r.alias text 0 more (scan_rows rs text more)
              (λ j. scan_rows-keeps_any (takes j (text_length r.alias)) rs text more)
              (scan_alias-all_taken r text 0 found (nonempty-length r.alias e) h.0))
            (scan_rows-covers rs text more d.1 (scan_alias-AllAbove r text rs found d.0 h.1))))
]

AllAbove-start : (rs : List AliasRegistry) → AllAbove rs []
AllAbove-start [] = tt
AllAbove-start (r ∷ rs) = (tt, AllAbove-start rs)

all_mono :
    (p q : AliasRegistry → Bool) (rs : List AliasRegistry)
    → ((r : AliasRegistry) → p r ≡ true → q r ≡ true)
    → all p rs ≡ true
    → all q rs ≡ true
all_mono p q [] h k = refl
all_mono p q (r ∷ rs) h k = ground (arith, h r, all_mono p q rs h)

-- The order of the matches does not matter.
sorted-covers :
    (text : String) (ms : List AliasMatch) (r : AliasRegistry)
    → is_covered text ms r ≡ true
    → is_covered text (sort_by earlier_first ms) r ≡ true
sorted-covers text ms r h = elim (Bool-cases (str_eq r.alias "")) [
  | inl e ↦ rw e refl
  | inr e ↦ rw e (
      all_taken_mono r.alias text 0 ms (sort_by earlier_first ms)
        (λ j k. any-sort_by earlier_first (takes j (text_length r.alias)) ms ∙ k) (rw e at h))
]

empty-covers : (ms : List AliasMatch) (rs : List AliasRegistry) → all (is_covered "" ms) rs ≡ true
empty-covers ms [] = refl
empty-covers ms (r ∷ rs) = ground (arith, empty-covers ms rs)

-- With the feature on, wherever an alias of the version stands in the text, there is a match that
-- shares a position with it and is at least as long.
pub resolve_aliases-covers :
    (text : String) (version : ℕ) (rows : List AliasRegistry)
    → all
        (is_covered text (resolve_aliases true text version rows))
        (select (λ r. r.novel_version_id == version) rows)
      ≡ true
unfolding resolve_aliases
resolve_aliases-covers text version rows =
    let own = select (λ r. r.novel_version_id == version) rows in
    elim (Bool-cases (str_eq text "")) [
      | inl e ↦ rw e (
          subst (λ t. all (is_covered t []) own ≡ true) (sym ((eq_iff text "").0 e))
            (empty-covers [] own))
      | inr e ↦ rw e (
          let sorted = sort_by longer_first (sort_by by_priority own) in
          let ms = sort_by earlier_first (scan_rows sorted text []) in
          let covered : all (is_covered text ms) sorted ≡ true =
            all_mono (is_covered text (scan_rows sorted text [])) (is_covered text ms) sorted
              (sorted-covers text (scan_rows sorted text []))
              (scan_rows-covers sorted text [] (sort_by-Descending (sort_by by_priority own))
                (AllAbove-start sorted)) in
          sym (all-sort_by by_priority (is_covered text ms) own)
          ∙ (sym (all-sort_by longer_first (is_covered text ms) (sort_by by_priority own))
              ∙ covered))
    ]
