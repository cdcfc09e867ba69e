-- ===== src/Aliases/Apart.antt =====
-- The matches of `resolve_aliases` of app/services/memory/alias_registry.py do not overlap.
use Prim.Native.String.{String}
use ai_jin_shu.Common.{
  ℕ, suc, ◌+◌, ◌≡◌, Bool, true, false, not, ◌||◌, List, [], ◌∷◌, ◌++◌, leb, str_eq, All, arith,
  Bool-cases, inl, inr,
}
use ai_jin_shu.Common.Sorting.{insert_by, sort_by, All-insert_by, All-sort_by}
use ai_jin_shu.Common.Table.{All-append_one}
use ai_jin_shu.Aliases.{
  AliasRegistry, AliasMatch, text_length, begins_with, overlaps, match_at, scan_alias, scan_rows,
  longer_first, earlier_first, list_aliases, resolve_aliases,
}

-- One of the two matches ends before the other starts.
abbrev pub IsApart : AliasMatch → AliasMatch → Type 0
IsApart a b = (leb a.stop b.start || leb b.stop a.start) ≡ true

-- No two of the matches overlap.
abbrev pub AllApart : List AliasMatch → Type 0
AllApart [] = Unit
AllApart (m ∷ ms) = All (IsApart m) ms × AllApart ms

IsApart-sym : (a b : AliasMatch) → IsApart a b → IsApart b a
IsApart-sym a b h = ground arith

All-IsApart :
    (a : AliasMatch) (ms : List AliasMatch) → All (λ m. IsApart m a) ms → All (IsApart a) ms
All-IsApart a [] h = tt
All-IsApart a (m ∷ ms) h = (IsApart-sym m a h.0, All-IsApart a ms h.1)

AllApart-append :
    (a : AliasMatch) (ms : List AliasMatch)
    → AllApart ms
    → All (λ m. IsApart m a) ms
    → AllApart (ms ++ a ∷ [])
AllApart-append a [] h k = (tt, tt)
AllApart-append a (m ∷ ms) h k =
    (All-append_one (IsApart m) a ms h.0 k.0, AllApart-append a ms h.1 k.1)

free-IsApart :
    (r : AliasRegistry) (i : ℕ) (ms : List AliasMatch)
    → overlaps i (i + text_length r.alias) ms ≡ false
    → All (λ m. IsApart m (match_at r i)) ms
free-IsApart r i [] h = tt
free-IsApart r i (m ∷ ms) h = (ground arith, free-IsApart r i ms (ground arith))

scan_alias-AllApart :
    (r : AliasRegistry) (text : String) (i : ℕ) (found : List AliasMatch)
    → AllApart found
    → AllApart (scan_alias r text i found)
unfolding scan_alias
scan_alias-AllApart r String.[] i found h = h
scan_alias-AllApart r (String.◌∷◌ c s) i found h =
    elim (Bool-cases (begins_with r.alias (String.◌∷◌ c s))) [
      | inr e ↦ rw e (scan_alias-AllApart r s (suc i) found h)
      | inl e ↦ rw e (elim (Bool-cases (overlaps i (i + text_length r.alias) found)) [
        | inl o ↦ rw o (scan_alias-AllApart r s (suc i) found h)
        | inr o ↦ rw o (
            scan_alias-AllApart r s (suc i) (found ++ match_at r i ∷ [])
              (AllApart-append (match_at r i) found h (free-IsApart r i found o)))
      ])
    ]

scan_rows-AllApart :
    (rs : List AliasRegistry) (text : String) (found : List AliasMatch)
    → AllApart found
    → AllApart (scan_rows rs text found)
unfolding scan_rows
scan_rows-AllApart [] text found h = h
scan_rows-AllApart (r ∷ rs) text found h = elim (Bool-cases (str_eq r.alias "")) [
  | inl e ↦ rw e (scan_rows-AllApart rs text found h)
  | inr e ↦ rw e (
      scan_rows-AllApart rs text (scan_alias r text 0 found) (scan_alias-AllApart r text 0 found h))
]

insert_by-AllApart :
    (a : AliasMatch) (ms : List AliasMatch)
    → All (IsApart a) ms
    → AllApart ms
    → AllApart (insert_by earlier_first a ms)
unfolding insert_by
insert_by-AllApart a [] h k = (tt, tt)
insert_by-AllApart a (m ∷ ms) h k = elim (Bool-cases (earlier_first a m)) [
  | inl e ↦ rw e (h, k)
  | inr e ↦ rw e (
    All-insert_by earlier_first (IsApart m) a ms (IsApart-sym a m h.0) k.0,
    insert_by-AllApart a ms h.1 k.1,
  )
]

sort_by-AllApart : (ms : List AliasMatch) → AllApart ms → AllApart (sort_by earlier_first ms)
unfolding sort_by
sort_by-AllApart [] h = tt
sort_by-AllApart (m ∷ ms) h =
    insert_by-AllApart m (sort_by earlier_first ms) (All-sort_by earlier_first (IsApart m) ms h.0)
      (sort_by-AllApart ms h.1)

-- No two of the matches that are found in a text overlap.
pub resolve_aliases-AllApart :
    (enabled : Bool) (text : String) (version : ℕ) (rows : List AliasRegistry)
    → AllApart (resolve_aliases enabled text version rows)
unfolding resolve_aliases
resolve_aliases-AllApart enabled text version rows =
    elim (Bool-cases (not enabled || str_eq text "")) [
      | inl e ↦ rw e tt
      | inr e ↦ rw e (
          sort_by-AllApart (scan_rows (sort_by longer_first (list_aliases version rows)) text [])
            (scan_rows-AllApart (sort_by longer_first (list_aliases version rows)) text [] tt))
    ]
