-- ===== src/Aliases/Genuine.antt =====
-- The matches of `resolve_aliases` of app/services/memory/alias_registry.py stand in the text.
use Prim.Native.Char.{Char}
use Prim.Native.String.{String}
use ai_jin_shu.Common.{
  ℕ, zero, suc, ◌+◌, ◌≡◌, refl, ap, ◌∙◌, Bool, true, not, ◌||◌, List, [], ◌∷◌, ◌++◌, str_eq, All,
  Bool-cases, inl, inr,
}
use ai_jin_shu.Common.Sorting.{sort_by, All-sort_by}
use ai_jin_shu.Common.Table.{All-append_one}
use ai_jin_shu.Aliases.{
  AliasRegistry, AliasMatch, text_length, drop_text, begins_with, overlaps, match_at, scan_alias,
  scan_rows, longer_first, earlier_first, list_aliases, resolve_aliases,
}

-- The alias of a match stands at its start, and its length is that of the match.
abbrev pub StandsIn : String → AliasMatch → Type 0
StandsIn text m =
    (begins_with m.alias (drop_text m.start text) ≡ true) × (m.stop ≡ m.start + text_length m.alias)

drop_text-suc :
    (i : ℕ) (text : String) (c : Char) (s : String)
    → drop_text i text ≡ String.◌∷◌ c s
    → drop_text (suc i) text ≡ s
drop_text-suc zero String.[] c s h = cc
drop_text-suc zero (String.◌∷◌ d t) c s h = cc
drop_text-suc (suc i) String.[] c s h = cc
drop_text-suc (suc i) (String.◌∷◌ d t) c s h = drop_text-suc i t c s h

scan_alias-StandsIn :
    (text : String) (r : AliasRegistry) (rest : String) (i : ℕ) (found : List AliasMatch)
    → drop_text i text ≡ rest
    → All (StandsIn text) found
    → All (StandsIn text) (scan_alias r rest i found)
unfolding scan_alias
scan_alias-StandsIn text r String.[] i found d h = h
scan_alias-StandsIn text r (String.◌∷◌ c s) i found d h =
    elim (Bool-cases (begins_with r.alias (String.◌∷◌ c s))) [
      | inr e ↦ rw e (scan_alias-StandsIn text r s (suc i) found (drop_text-suc i text c s d) h)
      | inl e ↦ elim (Bool-cases (overlaps i (i + text_length r.alias) found)) [
        | inl o ↦
            rw e (rw o (scan_alias-StandsIn text r s (suc i) found (drop_text-suc i text c s d) h))
        | inr o ↦ rw e (
            rw o (
              scan_alias-StandsIn text r s (suc i) (found ++ match_at r i ∷ [])
                (drop_text-suc i text c s d)
                (All-append_one (StandsIn text) (match_at r i) found h
                  (ap (begins_with r.alias) d ∙ e, refl))))
      ]
    ]

scan_rows-StandsIn :
    (text : String) (rs : List AliasRegistry) (found : List AliasMatch)
    → All (StandsIn text) found
    → All (StandsIn text) (scan_rows rs text found)
unfolding scan_rows
scan_rows-StandsIn text [] found h = h
scan_rows-StandsIn text (r ∷ rs) found h = elim (Bool-cases (str_eq r.alias "")) [
  | inl e ↦ rw e (scan_rows-StandsIn text rs found h)
  | inr e ↦ rw e (
      scan_rows-StandsIn text rs (scan_alias r text 0 found)
        (scan_alias-StandsIn text r text 0 found refl h))
]

-- Each match that is found stands in the text: its alias begins at its start and ends at its end.
pub resolve_aliases-StandsIn :
    (enabled : Bool) (text : String) (version : ℕ) (rows : List AliasRegistry)
    → All (StandsIn text) (resolve_aliases enabled text version rows)
unfolding resolve_aliases
resolve_aliases-StandsIn enabled text version rows =
    elim (Bool-cases (not enabled || str_eq text "")) [
      | inl e ↦ rw e tt
      | inr e ↦ rw e (
          let found = scan_rows (sort_by longer_first (list_aliases version rows)) text [] in
          All-sort_by earlier_first (StandsIn text) found
            (scan_rows-StandsIn text (sort_by longer_first (list_aliases version rows)) [] tt))
    ]
